-- ===== src/Routing/Intent.antt =====
-- agents/_routing_rules.py: `infer_intent` and its keyword rules, and the keyword tests of
-- agents/supervisor.py. Regular expressions are the record `Re`.
use water_info.Base.{
  ℕ, String, Bool, true, false, ◌&&◌, ◌||◌, Option, none, some, List, [], ◌∷◌, ◌++◌, ◌==◌,
  string_eq, if◌then◌else◌, leb,
}
use water_info.Base.Sort.{sort}
use water_info.Routing.Fallback.{
  Intent, general_chat, knowledge_qa, station_status, overview, alarm_overview, risk_query,
  plan_generation, resource_dispatch, notification_query, execution_status, data_lookup,
}
use water_info.Routing.Text.{contains_any, contains}

-- `query.strip().lower()`, the `re.match` of a greeting on it, and the first group that one of the
-- three patterns of a station finds.
pub record Re : Type 0 where
  pub strip_lower : String → String
  pub is_greeting : String → Bool
  pub station : String → Option String

abbrev pub execution_keywords : List String
execution_keywords = "执行" ∷ "进度" ∷ "完成了吗" ∷ "落实" ∷ "落地" ∷ "推进到哪" ∷ "执行情况" ∷ []

abbrev pub plan_keywords : List String
plan_keywords = "预案" ∷ "方案" ∷ "怎么处置" ∷ "怎么应对" ∷ "响应" ∷ "处置方案" ∷ "行动建议" ∷ []

abbrev pub resource_keywords : List String
resource_keywords = "资源" ∷ "物资" ∷ "调度" ∷ "队伍" ∷ "人员" ∷ "车辆" ∷ "抢险力量" ∷ "装备" ∷ []

abbrev pub notification_keywords : List String
notification_keywords = "通知" ∷ "告知" ∷ "通报" ∷ "谁需要知道" ∷ "通知谁" ∷ "发送给谁" ∷ []

abbrev pub risk_keywords : List String
risk_keywords = "风险" ∷ "研判" ∷ "评估" ∷ "危险吗" ∷ "严不严重" ∷ "趋势判断" ∷ []

abbrev pub alarm_keywords : List String
alarm_keywords = "告警" ∷ "预警" ∷ "报警" ∷ "异常" ∷ "超限" ∷ "告急" ∷ []

abbrev pub overview_keywords : List String
overview_keywords = "总览" ∷ "概况" ∷ "整体" ∷ "总体" ∷ "全局" ∷ "态势" ∷ "情况怎么样" ∷ "现在怎么样" ∷ "总体情况" ∷ []

abbrev pub station_keywords : List String
station_keywords = "站" ∷ "站点" ∷ "水库" ∷ "闸" ∷ "泵站" ∷ "断面" ∷ []

abbrev pub data_only_keywords : List String
data_only_keywords = "无需分析" ∷ "不用分析" ∷ "不要分析" ∷ "无须分析" ∷ "只要数据" ∷ "只看数据" ∷ "数据库数据" ∷ []

abbrev pub data_lookup_keywords : List String
data_lookup_keywords = "最新" ∷ "数据" ∷ "观测" ∷ "记录" ∷ "明细" ∷ []

abbrev pub knowledge_keywords : List String
knowledge_keywords =
    "制度" ∷ "手册" ∷ "规范" ∷ "条例" ∷ "办法" ∷ "流程" ∷ "规程" ∷ "值班要求" ∷ "预案模板" ∷ "文档" ∷ "资料" ∷ "文件" ∷ "依据"
    ∷ []

abbrev pub water_domain_keywords : List String
water_domain_keywords =
    station_keywords
    ++ ("水情" ∷ "水位" ∷ "雨量" ∷ "洪水" ∷ "防汛" ∷ "河道" ∷ "监测" ∷ [])
    ++ alarm_keywords
    ++ ("应急" ∷ [])
    ++ risk_keywords
    ++ plan_keywords
    ++ resource_keywords
    ++ notification_keywords
    ++ execution_keywords

abbrev pub chat_keywords : List String
chat_keywords = "你能做什么" ∷ "怎么用" ∷ "帮助" ∷ "help" ∷ "介绍一下你自己" ∷ "你是谁" ∷ "谢谢" ∷ "辛苦了" ∷ "再见" ∷ []

module _ (re : Re) where
  unfoldable pub is_general_chat_query : String → Bool
  unfolding contains_any
  is_general_chat_query query =
      let lowered = re.strip_lower query in
      if lowered == ""
      then true
      else if re.is_greeting lowered
      then true
      else contains_any query chat_keywords

  unfoldable pub has_station_focus : String → Bool
  unfolding contains_any
  has_station_focus query = elim (re.station query) [
    | some found ↦ true
    | none ↦ contains_any query station_keywords
  ]

unfoldable pub is_data_lookup_query : String → Bool
unfolding contains_any contains
is_data_lookup_query query =
    contains_any query data_only_keywords
    || (contains_any query data_lookup_keywords
        && (contains query "最新" || contains query "数据库" || contains query "数据"))

unfoldable pub is_alarm_overview_query : String → Bool → Bool
unfolding contains_any contains
is_alarm_overview_query query station_focus =
    if station_focus
    then false
    else contains_any query alarm_keywords
      && (contains_any query (overview_keywords ++ ("分布" ∷ "多少" ∷ "有哪些" ∷ "哪里" ∷ "集中在哪" ∷ []))
          || contains query "告警"
          || contains query "预警")

-- `IntentRule`: what `match_fn` answers for the query at hand, in place of the function.
pub record IntentRule : Type 0 where
  pub intent : Intent
  pub matched : Bool
  pub priority : ℕ

unfoldable pub rule : Intent → Bool → ℕ → IntentRule
rule i b n = record { intent = i; matched = b; priority = n }

-- `_build_intent_rules`, at the query
unfoldable pub intent_rules : Re → String → List IntentRule
unfolding rule is_general_chat_query is_data_lookup_query contains_any has_station_focus
    is_alarm_overview_query
intent_rules re q =
    rule general_chat (is_general_chat_query re q) 0
    ∷ rule data_lookup (is_data_lookup_query q) 1
    ∷ rule knowledge_qa (contains_any q knowledge_keywords) 2
    ∷ rule execution_status (contains_any q execution_keywords) 3
    ∷ rule resource_dispatch (contains_any q resource_keywords) 4
    ∷ rule notification_query (contains_any q notification_keywords) 5
    ∷ rule plan_generation (contains_any q plan_keywords) 6
    ∷ rule risk_query (contains_any q risk_keywords) 7
    ∷ rule station_status (has_station_focus re q) 8
    ∷ rule alarm_overview (is_alarm_overview_query q (has_station_focus re q)) 9
    ∷ rule overview (contains_any q overview_keywords && contains_any q water_domain_keywords) 10
    ∷ rule overview (contains_any q water_domain_keywords) 11
    ∷ []

-- the loop of `infer_intent`
unfoldable pub first_rule : List IntentRule → Option IntentRule
first_rule [] = none
first_rule (r ∷ rs) = let rest = first_rule rs in if r.matched then some r else rest

abbrev intent_of : Option IntentRule → Intent
intent_of none = general_chat
intent_of (some r) = r.intent

unfoldable pub by_priority : List IntentRule → List IntentRule
unfolding sort
by_priority rules = sort (λ r s. leb r.priority s.priority) rules

unfoldable pub infer_intent : Re → String → Intent
unfolding intent_rules first_rule by_priority
infer_intent re query = intent_of (first_rule (by_priority (intent_rules re query)))
