-- ===== src/Foundation/Org.antt =====
-- The checks of the AWS organization in validate_foundation.py: identity, organization, units and
-- service control policies. An id or a name that is no text counts as a TypeError where it is a key.
use infra_lab.Base.{
  String, false, not, none, some, List, [], ◌∷◌, any, if◌then◌else◌, is_empty, keep_if, contains,
  length, Result, ok, err, attribute_error, str_eq, Exec,
}
use infra_lab.Base.Stateful.{pure, lift, ◌>>=◌, ◌>>◌}
use infra_lab.Base.Text.{◌<>◌, join, lower, has_text, show_ℕ, sort_texts}
use infra_lab.Base.Number.{Number, text_of, truthy}
use infra_lab.Base.Json.{Json, Fields, none_left, end, field, null, str, arr, obj}
use infra_lab.Trader.Tools.Records.{set_member}
use infra_lab.Foundation.Suite.{
  Env, Suite, AwsReply, answered, failed, fail, warn, add, add_either, for_each, aws_json, get_or,
  dict_of, is_text, iterate, get_each, first_item, set_of, text_only, on_reply,
}

-- `REQUIRED_OUS`, sorted
abbrev pub required_ous : List String
required_ous = "Infrastructure" ∷ "Sandbox" ∷ "Security" ∷ "Workloads" ∷ []

-- `SCP_PATTERNS`, with the labels of the targets
abbrev pub scp_pattern : String → String
scp_pattern label =
    if str_eq label "root"
    then "leave"
    else if str_eq label "workloads"
    then "region"
    else "security"

abbrev pub stacksets_principal : String
stacksets_principal = "member.org.stacksets.cloudformation.amazonaws.com"

module _ {F : Type 0} where
  key_names : Fields F → List String
  key_names end = []
  key_names (field k v rest) = k ∷ key_names rest

  -- `{item.get(key, ""): item.get(value, "") for item in items}`: a later item counts.
  dict_from : Fields F → String → String → List (Json F) → Result (Fields F)
  dict_from built key value [] = ok built
  dict_from built key value (v ∷ vs) = elim (dict_of v) [
    | err e ↦ err e
    | ok d ↦ elim (text_only (get_or key (str "") d)) [
      | err e ↦ err e
      | ok k ↦ dict_from (set_member k (get_or value (str "") d) built) key value vs
    ]
  ]

  unfoldable pub dict_by : String → String → List (Json F) → Result (Fields F)
  unfolding dict_from
  dict_by key value items = dict_from end key value items

module _ {F : Type 0} ⦃number : Number F⦄ (env : Env F) (profile : String) where
  unfoldable pub check_account : String → Fields F → Exec Suite (Unit {0})
  check_account expected reply =
      let account = get_or "Account" null reply in
      add_either "e03.aws.identity" (is_text expected account)
        ("caller identity confirmed: account " <> expected)
        ("expected " <> (expected <> (", got " <> text_of account))) fail

  unfoldable pub check_aws_identity : String → Exec Suite (Unit {0})
  unfolding aws_json on_reply check_account
  check_aws_identity expected =
      aws_json env profile ("sts" ∷ "get-caller-identity" ∷ []) none
      >>= on_reply "e03.aws.identity" fail (check_account expected)

  unfoldable pub check_principals : Fields F → Exec Suite (Unit {0})
  unfolding iterate get_each set_of
  check_principals reply = do
    items ← lift (iterate (get_or "EnabledServicePrincipals" (arr none_left) reply))
    names ← lift (get_each "ServicePrincipal" (str "") items)
    principals ← lift (set_of names)
    add_either "e03.org.service_access.controltower_stacksets"
        (any (is_text stacksets_principal) principals)
        "Control Tower StackSets service principal enabled" ("missing: " <> stacksets_principal)
        fail

  -- `roots[0].get("Id") if roots else None`
  root_id_of : Json F → Result (Json F)
  root_id_of roots = if not (truthy (some roots)) then ok null else elim (first_item roots) [
    | err e ↦ err e
    | ok first ↦ elim (dict_of first) [ err e ↦ err e | ok d ↦ ok (get_or "Id" null d) ]
  ]

  -- The id of the root, null where there is none.
  unfoldable pub check_roots : AwsReply F → Exec Suite (Json F)
  unfolding root_id_of first_item
  check_roots (failed problem) = do add "e03.org.roots" false problem fail; pure null
  check_roots (answered v) = do
    reply ← lift (dict_of v)
    root_id ← lift (root_id_of (get_or "Roots" (arr none_left) reply))
    add_either "e03.org.roots" (truthy (some root_id))
        ("organization root found: " <> text_of root_id) "no organization root found" fail
    pure root_id

  unfoldable pub check_feature_set : Json F → Exec Suite (Unit {0})
  check_feature_set v = do
    reply ← lift (dict_of v)
    org ← lift (dict_of (get_or "Organization" (obj end) reply))
    let feature_set = get_or "FeatureSet" null org
    add_either "e03.org.feature_set" (is_text "ALL" feature_set) "organization FeatureSet=ALL"
        ("FeatureSet=" <> text_of feature_set) fail

  unfoldable pub after_describe : AwsReply F → Exec Suite (Json F)
  unfolding check_feature_set check_principals check_roots aws_json on_reply
  after_describe (failed problem) = do add "e03.org.describe" false problem fail; pure null
  after_describe (answered v) = do
    check_feature_set v
    access ←
        aws_json env profile ("organizations" ∷ "list-aws-service-access-for-organization" ∷ [])
          none
    on_reply "e03.org.service_access" fail check_principals access
    roots ← aws_json env profile ("organizations" ∷ "list-roots" ∷ []) none
    check_roots roots

  unfoldable pub check_organization : Exec Suite (Json F)
  unfolding aws_json after_describe
  check_organization =
      aws_json env profile ("organizations" ∷ "describe-organization" ∷ []) none >>= after_describe

  unfoldable pub after_ous : AwsReply F → Exec Suite (Fields F)
  unfolding dict_by iterate key_names
  after_ous (failed problem) = do add "e03.org.ous" false problem fail; pure end
  after_ous (answered v) = do
    reply ← lift (dict_of v)
    items ← lift (iterate (get_or "OrganizationalUnits" (arr none_left) reply))
    ou_map ← lift (dict_by "Name" "Id" items)
    let names = key_names ou_map
    let missing = keep_if (λ ou. not (contains names ou)) required_ous
    add_either "e03.org.ous" (is_empty missing)
        ("all required OUs present: " <> join ", " (sort_texts names))
        ("missing OUs: " <> join ", " missing) fail
    pure ou_map

  unfoldable pub check_ous : Json F → Exec Suite (Fields F)
  unfolding aws_json after_ous
  check_ous root_id = do
    root ← lift (text_only root_id)
    reply ←
        aws_json env profile
          ("organizations" ∷ "list-organizational-units-for-parent" ∷ "--parent-id" ∷ root ∷ [])
          none
    after_ous reply

  -- `[policy_by_id.get(item.get("Id", ""), "").lower() for item in items]`
  attached_names : Fields F → List (Json F) → Result (List String)
  attached_names policies [] = ok []
  attached_names policies (v ∷ vs) = elim (dict_of v) [
    | err e ↦ err e
    | ok d ↦ elim (text_only (get_or "Id" (str "") d)) [
      | err e ↦ err e
      | ok id ↦ elim (get_or id (str "") policies) [
        | str name ↦ elim (attached_names policies vs) [
          | err e ↦ err e
          | ok rest ↦ ok (lower name ∷ rest)
        ]
        | _ ↦ err attribute_error
      ]
    ]
  ]

  unfoldable pub check_attached : Fields F → String → Fields F → Exec Suite (Unit {0})
  unfolding attached_names iterate
  check_attached policies label reply = do
    items ← lift (iterate (get_or "Policies" (arr none_left) reply))
    names ← lift (attached_names policies items)
    add_either ("e03.scp.attachments." <> label) (has_text (join " " names) (scp_pattern label))
        ("SCP attachment signals matched for " <> label) ("SCP pattern mismatch for " <> label) warn

  unfoldable pub check_target : Fields F → String × Json F → Exec Suite (Unit {0})
  unfolding check_attached aws_json on_reply
  check_target policies (label, target_id) =
      if not (truthy (some target_id))
      then add ("e03.scp.attachments." <> label) false ("target id not found for " <> label) fail
      else do
        target ← lift (text_only target_id)
        reply ←
            aws_json env profile
              ("organizations" ∷ "list-policies-for-target" ∷ "--target-id" ∷ target ∷ "--filter"
                ∷ "SERVICE_CONTROL_POLICY" ∷ [])
              none
        on_reply ("e03.scp.attachments." <> label) fail (check_attached policies label) reply

  abbrev pub targets : Json F → Fields F → List (String × Json F)
  targets root_id ou_map =
      ("root", root_id)
      ∷ ("workloads", get_or "Workloads" (str "") ou_map)
      ∷ ("security", get_or "Security" (str "") ou_map)
      ∷ ("infrastructure", get_or "Infrastructure" (str "") ou_map)
      ∷ ("sandbox", get_or "Sandbox" (str "") ou_map)
      ∷ []

  unfoldable pub check_policies : Json F → Fields F → Fields F → Exec Suite (Unit {0})
  unfolding dict_by iterate check_target for_each
  check_policies root_id ou_map reply = do
    let found = get_or "Policies" (arr none_left) reply
    policies ← lift (iterate found)
    add_either "e03.scp.policies_exist" (truthy (some found))
        (show_ℕ (length policies) <> " SCP(s) found") "no SCPs found" fail
    by_id ← lift (dict_by "Id" "Name" policies)
    for_each (targets root_id ou_map) (check_target by_id)

  unfoldable pub check_scps : Json F → Fields F → Exec Suite (Unit {0})
  unfolding aws_json on_reply check_policies
  check_scps root_id ou_map =
      aws_json env profile
        ("organizations" ∷ "list-policies" ∷ "--filter" ∷ "SERVICE_CONTROL_POLICY" ∷ []) none
      >>= on_reply "e03.scp.policies_exist" fail (check_policies root_id ou_map)
