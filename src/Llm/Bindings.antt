-- ===== src/Llm/Bindings.antt =====
-- app/services/llm_engine/bindings.py: the chain of models for a purpose. The parameter `env` is `_env`: the
-- stripped value of an environment variable or a setting, "" where there is none.
use Prim.Native.String.{◌++◌ as ◌+++◌, String, ◌∷◌, []}
use meal_key_ecosystem.Base.{
  Bool, List, String, if◌then◌else◌, [], ◌∷◌, not, or_text, any_of, ◌==◌, contains, starts_with,
  map, or_else, drop_prefix, lookup, ◌++◌, is_in, ◌||◌,
}

pub data Provider : Type 0 where
  kimi deepseek qianwen doubao : Provider

pub record Candidate : Type 0 where
  pub id : String
  pub provider : Provider
  pub model : String
  pub base_url : String
  pub api_key_env : String
  pub quality_tier : String

abbrev purpose_mapping : List (String × String)
purpose_mapping =
    ("brand_design", "brand.structured_output")
    ∷ ("space_design", "space.structured_output")
    ∷ ("polish", "general.polish")
    ∷ ("consulting", "general.consulting")
    ∷ ("mwork", "general.consulting")
    ∷ ("compiler", "general.consulting")
    ∷ ("expert_l1", "general.consulting")
    ∷ ("menu.simulation_explain", "menu.simulation_explain")
    ∷ ("menu.order_simulation_explain", "menu.order_simulation_explain")
    ∷ []

resolve_capability_purpose : String → String
resolve_capability_purpose purpose = or_else (lookup purpose purpose_mapping) purpose

-- `_unique`: the first of each id
unique : List String → List Candidate → List Candidate
unique seen [] = []
unique seen (c ∷ rest) =
    let skipped = unique seen rest in
    let kept = unique (c.id ∷ seen) rest in if is_in c.id seen then skipped else c ∷ kept

-- the provider has a key
has_deepseek : (String → String) → Bool
has_deepseek env = not (env "DEEPSEEK_API_KEY" == "")

has_qwen : (String → String) → Bool
has_qwen env = not (env "QWEN_API_KEY" == "") || not (env "DASHSCOPE_API_KEY" == "")

has_kimi : (String → String) → Bool
has_kimi env = not (env "MOONSHOT_API_KEY" == "") || not (env "KIMI_API_KEY" == "")

one_if : Bool → Candidate → List Candidate
one_if b c = if b then c ∷ [] else []

list_consulting_chain : (String → String) → List Candidate
unfolding unique one_if has_deepseek has_qwen has_kimi
list_consulting_chain env = unique [] (
    one_if (has_deepseek env) (record {
      id = "general:deepseek-chat";
      provider = deepseek;
      model =
          or_text (env "CONSULTING_PRIMARY_MODEL")
            (or_text (env "DEEPSEEK_FLAGSHIP_MODEL") "deepseek-v4-pro");
      base_url = or_text (env "DEEPSEEK_BASE_URL") "https://api.deepseek.com";
      api_key_env = "DEEPSEEK_API_KEY";
      quality_tier = "balanced";
    })
    ++ one_if (has_qwen env) (record {
      id = "general:qwen-plus";
      provider = qianwen;
      model =
          or_text (env "CONSULTING_QWEN_FALLBACK_MODEL")
            (or_text (env "QWEN_UTILITY_MODEL") "qwen3.6-flash");
      base_url = or_text (env "QWEN_BASE_URL") "https://dashscope.aliyuncs.com/compatible-mode/v1";
      api_key_env = (if env "QWEN_API_KEY" == "" then "DASHSCOPE_API_KEY" else "QWEN_API_KEY");
      quality_tier = "fast";
    })
    ++ one_if (has_kimi env) (record {
      id = "general:kimi";
      provider = kimi;
      model = or_text (env "KIMI_LONG_CONTEXT_MODEL") "kimi-k3";
      base_url = or_text (env "MOONSHOT_BASE_URL") "https://api.moonshot.cn/v1";
      api_key_env = (if env "MOONSHOT_API_KEY" == "" then "KIMI_API_KEY" else "MOONSHOT_API_KEY");
      quality_tier = "balanced";
    }))

list_brand_text_chain : (String → String) → List Candidate
unfolding unique one_if has_deepseek has_qwen has_kimi
list_brand_text_chain env = unique [] (
    one_if (has_kimi env) (record {
      id = "brand.text:kimi:" +++ or_text (env "MDESIGN_BRAND_MODEL") "kimi-k3";
      provider = kimi;
      model = or_text (env "MDESIGN_BRAND_MODEL") "kimi-k3";
      base_url = or_text (env "MOONSHOT_BASE_URL") "https://api.moonshot.cn/v1";
      api_key_env = (if env "MOONSHOT_API_KEY" == "" then "KIMI_API_KEY" else "MOONSHOT_API_KEY");
      quality_tier = "flagship";
    })
    ++ one_if (has_qwen env) (record {
      id = "brand.text:qwen-plus";
      provider = qianwen;
      model =
          or_text (env "BRAND_QWEN_FALLBACK_MODEL")
            (or_text (env "QWEN_STRUCTURED_MODEL") "qwen3.7-plus");
      base_url = or_text (env "QWEN_BASE_URL") "https://dashscope.aliyuncs.com/compatible-mode/v1";
      api_key_env = (if env "QWEN_API_KEY" == "" then "DASHSCOPE_API_KEY" else "QWEN_API_KEY");
      quality_tier = "balanced";
    })
    ++ one_if (has_deepseek env) (record {
      id = "brand.text:deepseek-chat";
      provider = deepseek;
      model = or_text (env "DEEPSEEK_FAST_MODEL") "deepseek-v4-flash";
      base_url = or_text (env "DEEPSEEK_BASE_URL") "https://api.deepseek.com";
      api_key_env = "DEEPSEEK_API_KEY";
      quality_tier = "balanced";
    }))

list_space_text_chain : (String → String) → List Candidate
unfolding unique one_if has_deepseek has_qwen has_kimi
list_space_text_chain env = unique [] (
    one_if (has_qwen env) (record {
      id = "space.text:qwen-max";
      provider = qianwen;
      model =
          or_text (env "SPACE_QWEN_FALLBACK_MODEL")
            (or_text (env "QWEN_STRUCTURED_MODEL") "qwen3.7-plus");
      base_url = or_text (env "QWEN_BASE_URL") "https://dashscope.aliyuncs.com/compatible-mode/v1";
      api_key_env = (if env "QWEN_API_KEY" == "" then "DASHSCOPE_API_KEY" else "QWEN_API_KEY");
      quality_tier = "flagship";
    })
    ++ one_if (has_deepseek env) (record {
      id = "space.text:deepseek-chat";
      provider = deepseek;
      model = or_text (env "DEEPSEEK_FLAGSHIP_MODEL") "deepseek-v4-pro";
      base_url = or_text (env "DEEPSEEK_BASE_URL") "https://api.deepseek.com";
      api_key_env = "DEEPSEEK_API_KEY";
      quality_tier = "balanced";
    })
    ++ one_if (has_kimi env) (record {
      id = "space.text:kimi";
      provider = kimi;
      model = or_text (env "KIMI_LONG_CONTEXT_MODEL") "kimi-k3";
      base_url = or_text (env "MOONSHOT_BASE_URL") "https://api.moonshot.cn/v1";
      api_key_env = (if env "MOONSHOT_API_KEY" == "" then "KIMI_API_KEY" else "MOONSHOT_API_KEY");
      quality_tier = "balanced";
    }))

-- the chain of the consulting models under ids of its own; each id starts with "general:"
menu_id : Candidate → Candidate
menu_id c = record c {
  id = if contains c.id "general:" then "menu.analysis:" +++ drop_prefix "general:" c.id else c.id;
}

list_menu_analysis_chain : (String → String) → List Candidate
unfolding menu_id list_consulting_chain
list_menu_analysis_chain env = map menu_id (list_consulting_chain env)

pub resolve_purpose_model_chain : (String → String) → String → List Candidate
unfolding resolve_capability_purpose list_brand_text_chain list_space_text_chain
    list_consulting_chain list_menu_analysis_chain
resolve_purpose_model_chain env purpose =
    let cap = resolve_capability_purpose purpose in
    if starts_with "brand." cap
    then list_brand_text_chain env
    else if starts_with "space." cap
    then list_space_text_chain env
    else if starts_with "menu." cap
    then list_menu_analysis_chain env
    else list_consulting_chain env

provider_key : (String → String) → Provider → String
provider_key env kimi = or_text (env "MOONSHOT_API_KEY") (env "KIMI_API_KEY")
provider_key env deepseek = env "DEEPSEEK_API_KEY"
provider_key env qianwen = or_text (env "QWEN_API_KEY") (env "DASHSCOPE_API_KEY")
provider_key env doubao = env "ARK_API_KEY"

-- `resolve_candidate_api_key`; "" is `None`
pub resolve_candidate_api_key : (String → String) → Candidate → String
unfolding provider_key
resolve_candidate_api_key env c =
    let own = if c.api_key_env == "" then "" else env c.api_key_env in
    or_text own (provider_key env c.provider)

pub is_purpose_chain_configured : (String → String) → String → Bool
is_purpose_chain_configured env purpose =
    any_of (λ (c : Candidate). not (resolve_candidate_api_key env c == ""))
      (resolve_purpose_model_chain env purpose)
