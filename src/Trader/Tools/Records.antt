-- ===== src/Trader/Tools/Records.antt =====
-- `journal_note`, `save_evidence`, `save_handoff` and `send_report` of tools.py.
use infra_lab.Base.{
  ℕ, String, Bool, true, false, ◌&&◌, ◌||◌, not, List, [], ◌∷◌, ◌==◌, leb, ltb, length, all,
  if◌then◌else◌, contains, str_eq, ok, err, Result, ◌+◌, type_error, attribute_error, Exec,
}
use infra_lab.Base.Stateful.{pure, raise, lift, modify, ◌>>=◌, ◌>>◌}
use infra_lab.Base.Text.{
  ◌<>◌, codes, before_newline, has_text, is_blank, is_lower, is_upper, is_digit,
}
use infra_lab.Base.Number.{Number, of_ℕ, text_of}
use infra_lab.Base.Json.{Json, Items, Fields, none_left, item, end, field, bool, num, str, arr, obj}
use infra_lab.Trader.World.{World, Run, send, now_iso}
use infra_lab.Trader.Store.{put_text, put_json}
use infra_lab.Trader.Notify.{send_notice}
use infra_lab.Trader.Tools.{Context, label, journal}
use infra_lab.Trader.Tools.Orders.{failure}

abbrev pub evidence_max_chars : ℕ
evidence_max_chars = 20000

-- `REPORT_SLOTS`
abbrev pub is_report_slot : ℕ → Bool
is_report_slot slot = slot == 4 || slot == 6

abbrev is_name_char : ℕ → Bool
is_name_char c = is_lower c || is_upper c || is_digit c || c == b'_' || c == b'.' || c == b'-'

name_of : List ℕ → Bool
name_of cs = all is_name_char cs && leb 1 (length cs) && leb (length cs) 80

-- `EVIDENCE_NAME.match`: `$` lets a line feed stand behind the name.
unfoldable pub is_evidence_name : String → Bool
unfolding name_of
is_evidence_name filename = name_of (before_newline (codes filename))

module _ {F : Type 0} where
  -- `len(value)`
  abbrev pub count_items : Items F → ℕ
  count_items none_left = 0
  count_items (item v vs) = 1 + count_items vs

  abbrev pub count_members : Fields F → ℕ
  count_members end = 0
  count_members (field k v d) = 1 + count_members d

  abbrev pub size_of : Json F → Result ℕ
  size_of (str s) = ok (Prim.Native.String.count s)
  size_of (arr vs) = ok (count_items vs)
  size_of (obj d) = ok (count_members d)
  size_of v = err type_error

  -- `d[key] = value`
  abbrev pub set_member : String → Json F → Fields F → Fields F
  set_member k v end = field k v end
  set_member k v (field j x rest) =
      if str_eq j k then field j v rest else field j x (set_member k v rest)

module _ {F : Type 0} ⦃number : Number F⦄ (w : World F) (prefix : String) (ctx : Context) where
  abbrev success : Json F
  success = obj (field "ok" (bool true) end)

  unfoldable pub journal_note : String → Json F → Exec (Run F) (Json F)
  journal_note kind text = do
    journal w prefix ctx
        (if contains ("decision" ∷ "skipped" ∷ "note" ∷ []) kind then kind else "note")
        (field "text" text end)
    pure success

  abbrev pub evidence_key : String → String
  evidence_key filename = "state/evidence/" <> (ctx.day <> ("-" <> filename))

  -- `put_text`, which encodes the content: a value that is no text has no method `encode`.
  unfoldable pub put_content : String → Json F → Exec (Run F) (Unit {0})
  put_content key (str content) = put_text w prefix key content false
  put_content key content = raise attribute_error

  unfoldable pub store_evidence : String → Json F → Exec (Run F) (Json F)
  unfolding put_content
  store_evidence filename content = do
    let key = evidence_key filename
    journal w prefix ctx "intent"
        (field "action" (str "save_evidence") (field "filename" (str filename) end))
    if ctx.dry_run
        then (do
          journal w prefix ctx "result"
              (field "action" (str "save_evidence") (field "simulated" (bool true) end))
          pure (
              obj (
                field "ok" (bool true)
                  (field "simulated" (bool true) (field "key" (str key) end)))))
        else do
          put_content key content
          journal w prefix ctx "result"
              (field "action" (str "save_evidence") (field "key" (str key) end))
          pure (obj (field "ok" (bool true) (field "key" (str key) end)))

  -- The evidence under a plain name.
  unfoldable pub sized_evidence : String → Json F → ℕ → Exec (Run F) (Json F)
  unfolding store_evidence
  sized_evidence filename content size =
      if ltb evidence_max_chars size
      then pure (failure "error" "content too large")
      else store_evidence filename content

  -- A name that is no text does not fit the pattern's `match`.
  unfoldable pub save_evidence : Json F → Json F → Exec (Run F) (Json F)
  unfolding sized_evidence has_text
  save_evidence (str filename) content =
      if not (is_evidence_name filename) || has_text filename ".."
      then pure (failure "error" "filename must be a plain name, no path")
      else do size ← lift (size_of content); sized_evidence filename content size
  save_evidence filename content = raise type_error

  unfoldable pub save_handoff : Json F → Exec (Run F) (Json F)
  save_handoff (obj handoff) = do
    now ← send now_iso (λ h. ok (w.now_iso h))
    put_json w prefix "state/progress.json"
        (obj (
          set_member "updated_by_slot" (num (of_ℕ ctx.slot))
            (set_member "updated_at" (str now) handoff)))
        false
    pure success
  save_handoff handoff = pure (failure "error" "handoff must be an object")

  unfoldable pub mark_report : Bool → Exec (Run F) (Unit {0})
  mark_report sent = modify (λ s. record s { report_sent = s.report_sent || sent })

  -- `notify.send`, which encodes the message once there is a topic.
  unfoldable pub notice : String → Json F → Exec (Run F) Bool
  notice title (str message) = send_notice w ctx.ntfy_topic title message 3
  notice title message = if is_blank ctx.ntfy_topic then pure false else raise attribute_error

  unfoldable pub send_report : Json F → Json F → Exec (Run F) (Json F)
  unfolding mark_report notice label
  send_report title message =
      if not (is_report_slot ctx.slot)
      then pure (failure "error" "reports are only sent in the report slots")
      else do
        sent ←
            notice
              ((if ctx.dry_run then "[DRY RUN] " else "")
                <> ("[" <> (label ctx <> ("] " <> text_of title))))
              message
        mark_report sent
        pure (obj (field "ok" (bool sent) end))
