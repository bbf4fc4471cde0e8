-- ===== src/Flow/Phases.antt =====
-- `PHASE_META` of app/services/decision_flow.py: what each phase of the day says and allows.
use meal_key_ecosystem.Base.{true, false, String, Bool, ◌≡◌, refl}
use meal_key_ecosystem.Flow.Rhythm.{
  evening_review, Phase, quiet, night_learn, deep_review, morning_readiness, lunch_nba,
  lunch_protect, lunch_review, dinner_strategy,
}

pub record PhaseMeta : Type 0 where
  pub label : String
  pub clock_why : String
  pub interrupt_ok : Bool
  pub protect : Bool
  pub growth_ok : Bool
  pub now_title : String
  pub now_prompt : String
  pub if_skip : String
  pub next_when : String
  pub later_when : String
  pub guide_type : String
  pub owner : String
  pub status : String

quiet_meta : PhaseMeta
quiet_meta = record {
  label = "静默时段";
  clock_why = "现在是休息窗。没有急事我不会叫你，店里的事我继续盯着。";
  interrupt_ok = false;
  protect = false;
  growth_ok = false;
  now_title = "我继续盯店，有急事再叫你";
  now_prompt = "休息时段不推新动作。售罄、闭店这类异常除外。";
  if_skip = "不用做任何事。";
  next_when = "下一经营窗";
  later_when = "开店前";
  guide_type = "INFO";
  owner = "ai";
  status = "静默中";
}

night_learn_meta : PhaseMeta
night_learn_meta = record {
  label = "夜间学习";
  clock_why = "数据刚结算完。这是学习窗，不是拍板窗——我在回收今天的实验、更新策略记忆。";
  interrupt_ok = false;
  protect = false;
  growth_ok = false;
  now_title = "我在复盘今天，明早再给你结论";
  now_prompt = "夜间只学习、不改菜单、不加投流。";
  if_skip = "你现在什么都不用做。";
  next_when = "明早深度复盘";
  later_when = "开店前检查";
  guide_type = "INFO";
  owner = "ai";
  status = "学习中";
}

deep_review_meta : PhaseMeta
deep_review_meta = record {
  label = "深度复盘";
  clock_why = "昨天的数据已经齐了。这是看清问题的时间，不是改菜单的时间。";
  interrupt_ok = false;
  protect = false;
  growth_ok = false;
  now_title = "我在把昨天看清楚";
  now_prompt = "完整复盘后，开店前只会给你一件该拍的事。";
  if_skip = "你现在不用拍板。等开店前那一小时。";
  next_when = "开店前检查";
  later_when = "高峰前拍板";
  guide_type = "PROGRESS";
  owner = "ai";
  status = "复盘中";
}

morning_readiness_meta : PhaseMeta
morning_readiness_meta = record {
  label = "开店前检查";
  clock_why = "开店前这一小时，改完还能赶上午餐。过了这个点再改，这一餐就赶不上了。";
  interrupt_ok = true;
  protect = false;
  growth_ok = false;
  now_title = "开店前先把卡住的事清掉";
  now_prompt = "先确认主推、活动、库存有没有卡住。增长动作放到高峰前再拍。";
  if_skip = "跳过的话，这一餐可能带着隐患开张：售罄、活动过期、主推没挂上。";
  next_when = "高峰前拍板";
  later_when = "高峰保护";
  guide_type = "APPROVAL";
  owner = "boss";
  status = "现在需要你";
}

lunch_nba_meta : PhaseMeta
lunch_nba_meta = record {
  label = "高峰前 · 今天只拍这一板";
  clock_why = "高峰前这一小时是今天最适合拍板的窗口。现在定，这一餐还能吃到效果。";
  interrupt_ok = true;
  protect = false;
  growth_ok = true;
  now_title = "今天只拍这一板";
  now_prompt = "一件就够。拍完我去执行，高峰里不再找你。";
  if_skip = "跳过的话，这一餐还是按现在的菜单和活动走，窗口过了今晚再议。";
  next_when = "高峰保护";
  later_when = "餐段复盘";
  guide_type = "APPROVAL";
  owner = "boss";
  status = "现在需要你";
}

lunch_protect_meta : PhaseMeta
lunch_protect_meta = record {
  label = "高峰保护";
  clock_why = "高峰期间只盯异常：售罄、闭店、骤降。现在改菜单或加投流，会把这一餐打乱。";
  interrupt_ok = false;
  protect = true;
  growth_ok = false;
  now_title = "高峰保护中，我只盯异常";
  now_prompt = "不改菜单、不加投流、不推战略。有售罄或骤降我会立刻叫你。";
  if_skip = "现在不需要你做战略决定。";
  next_when = "餐段复盘";
  later_when = "下一餐策略";
  guide_type = "INFO";
  owner = "ai";
  status = "保护中";
}

lunch_review_meta : PhaseMeta
lunch_review_meta = record {
  label = "餐段复盘";
  clock_why = "这一餐刚过。先看有没有打到，再决定下一餐要不要调——午餐有效不代表晚餐有效。";
  interrupt_ok = false;
  protect = false;
  growth_ok = false;
  now_title = "我在看这一餐打没打到";
  now_prompt = "有明确偏差时我才会叫你。没有的话，晚餐前再拍一板。";
  if_skip = "没有紧急偏差，你可以先不管。";
  next_when = "晚餐策略";
  later_when = "晚高峰保护";
  guide_type = "PROGRESS";
  owner = "ai";
  status = "复盘中";
}

dinner_strategy_meta : PhaseMeta
dinner_strategy_meta = record {
  label = "晚餐策略";
  clock_why = "午餐有效不代表晚餐有效。现在是独立判断晚餐要不要调的窗口。";
  interrupt_ok = true;
  protect = false;
  growth_ok = true;
  now_title = "晚餐要不要单独调一板";
  now_prompt = "按午餐结果独立判断。不确定就先观察，不要把午餐动作原样搬过来。";
  if_skip = "跳过的话，晚餐按现有方案走，不再临时加动作。";
  next_when = "晚高峰保护";
  later_when = "日终复盘";
  guide_type = "APPROVAL";
  owner = "boss";
  status = "现在需要你";
}

evening_review_meta : PhaseMeta
evening_review_meta = record {
  label = "日终轻复盘";
  clock_why = "今天的动作窗口已经关了。我把结果收好，明天开店前再拍板。";
  interrupt_ok = false;
  protect = false;
  growth_ok = false;
  now_title = "今晚不再新开动作";
  now_prompt = "数据还没完全落地。有结果我记在右栏，明早再给你一件该做的事。";
  if_skip = "你现在什么都不用做。";
  next_when = "夜间学习";
  later_when = "明早复盘";
  guide_type = "INFO";
  owner = "ai";
  status = "收工中";
}

unfoldable pub phase_meta : Phase → PhaseMeta
unfolding quiet_meta night_learn_meta deep_review_meta morning_readiness_meta lunch_nba_meta
    lunch_protect_meta lunch_review_meta dinner_strategy_meta evening_review_meta
phase_meta quiet = quiet_meta
phase_meta night_learn = night_learn_meta
phase_meta deep_review = deep_review_meta
phase_meta morning_readiness = morning_readiness_meta
phase_meta lunch_nba = lunch_nba_meta
phase_meta lunch_protect = lunch_protect_meta
phase_meta lunch_review = lunch_review_meta
phase_meta dinner_strategy = dinner_strategy_meta
phase_meta evening_review = evening_review_meta

pub lunch_protect_flags :
    ((phase_meta lunch_protect).protect ≡ true) × ((phase_meta lunch_protect).interrupt_ok ≡ false)
unfolding phase_meta lunch_protect_meta
lunch_protect_flags = (refl, refl)
