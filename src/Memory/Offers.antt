-- ===== src/Memory/Offers.antt =====
-- The requests of scripts/mempalace_migrate_wing.py that ask the destination to add a drawer.
use infra_lab.Base.{
  ℕ, zero, suc, ◌+◌, ◌≤◌, ◌≡◌, refl, sym, ap, ◌∙◌, String, Bool, true, false, Option, none, some,
  List, [], ◌∷◌, arith, if◌then◌else◌, count_if, Result, ok, err, runtime, PyError, ok-injective,
  str_eq, eq_refl, ◌&&◌,
}
use infra_lab.Base.Stateful.{pure, raise, lift, attempt, ◌>>=◌, bind-ends, bind-returns}
use infra_lab.Base.Effects.{Calls, ask}
use infra_lab.Base.Text.{◌<>◌}
use infra_lab.Base.Json.{Json, Fields, end, field, str, obj, member, is_str}
use infra_lab.Memory.Client.{
  Server, Call, post, sleep, Network, object_of, at_key, one_attempt, after_last, after_attempt,
  attempts, rpc, load_text, tool_call,
}
use infra_lab.Memory.Migrate.{Tally, copy_one, counted, migrate}

-- Whether a call asks the server at `url` to add a drawer.
abbrev offer_in : Json ℕ → Bool
offer_in (obj d) = is_str "mempalace_add_drawer" (member "name" d)
offer_in v = false

abbrev pub is_offer : String → Call → Bool
is_offer url (post server method params) = str_eq server.url url && offer_in params
is_offer url (sleep seconds) = false

abbrev pub offers : String → List Call → ℕ
offers url made = count_if (is_offer url) made

-- No call is taken back.
record Grows (url : String) {A : Type 0} (m : Calls Call A) : Type 0 where
  at : (made : List Call) → offers url made ≤ offers url (m made).1

-- There is one more offer, however it ends.
record Offers (url : String) {A : Type 0} (m : Calls Call A) : Type 0 where
  at : (made : List Call) → offers url made + 1 ≤ offers url (m made).1

-- There is one more offer where it returns.
record Returns (url : String) {A : Type 0} (m : Calls Call A) : Type 0 where
  at : (made : List Call) (a : A) → (m made).0 ≡ ok a → offers url made + 1 ≤ offers url (m made).1

module _ {url : String} {A : Type 0} where
  Grows-pure : (a : A) → Grows url (pure {S = List Call} a)
  Grows-pure a = record { at = λ made. omega arith }

  Grows-raise : (e : PyError) → Grows url (raise {S = List Call} {A = A} e)
  Grows-raise e = record { at = λ made. omega arith }

  Grows-lift : (r : Result A) → Grows url (lift {S = List Call} r)
  Grows-lift r = record { at = λ made. omega arith }

  Grows-ask : (c : Call) (reply : List Call → Result A) → Grows url (ask c reply)
  Grows-ask c reply = record { at = λ made. omega arith }

  Grows-attempt : (m : Calls Call A) → Grows url m → Grows url (attempt m)
  Grows-attempt m q = record { at = λ made. q.at made }

  Grows-if :
      (b : Bool) (m n : Calls Call A) → Grows url m → Grows url n → Grows url (if b then m else n)
  Grows-if true m n q r = q
  Grows-if false m n q r = r

  Offers-ask :
      (c : Call) (reply : List Call → Result A) → is_offer url c ≡ true → Offers url (ask c reply)
  Offers-ask c reply h = record { at = λ made. rw h (omega arith) }

  Offers-attempt : (m : Calls Call A) → Offers url m → Offers url (attempt m)
  Offers-attempt m q = record { at = λ made. q.at made }

module _ {url : String} {A B : Type 0} where
  Grows-bind :
      (m : Calls Call A) (f : A → Calls Call B)
      → Grows url m
      → ((a : A) → Grows url (f a))
      → Grows url (m >>= f)
  Grows-bind m f q r = record {
    at = λ made.
        bind-ends (λ x. offers url made ≤ offers url x.1) m f made (λ e raised. q.at made)
          (λ a returned. omega (arith, q.at made, (r a).at (m made).1));
  }

  Offers-bind :
      (m : Calls Call A) (f : A → Calls Call B)
      → Offers url m
      → ((a : A) → Grows url (f a))
      → Offers url (m >>= f)
  Offers-bind m f q r = record {
    at = λ made.
        bind-ends (λ x. offers url made + 1 ≤ offers url x.1) m f made (λ e raised. q.at made)
          (λ a returned. omega (arith, q.at made, (r a).at (m made).1));
  }

  -- The offer is in the first part, or in what follows.
  Returns-first :
      (m : Calls Call A) (f : A → Calls Call B)
      → Offers url m
      → ((a : A) → Grows url (f a))
      → Returns url (m >>= f)
  Returns-first m f q r = record { at = λ made b h. (Offers-bind m f q r).at made }

  Returns-later :
      (m : Calls Call A) (f : A → Calls Call B)
      → Grows url m
      → ((a : A) → Returns url (f a))
      → Returns url (m >>= f)
  Returns-later m f q r = record {
    at = λ made b h.
        let (a, first, goes) = bind-returns m f made h in
        let rest : offers url (m made).1 + 1 ≤ offers url (f a (m made).1).1 =
          (r a).at (m made).1 b (sym (ap (λ x. x.0) goes) ∙ h) in
        let same : offers url ((m >>= f) made).1 ≡ offers url (f a (m made).1).1 =
          ap (λ x. offers url x.1) goes in
        omega (arith, q.at made, rest, same);
  }

ruleset grow_rules =
    (Grows-pure, Grows-raise, Grows-lift, Grows-ask, Grows-attempt, Grows-if, Grows-bind)

module _ (w : Network) (server : Server) (url : String) where
  load_text-Grows : (result : Json ℕ) → Grows url (load_text w result)
  unfolding load_text
  load_text-Grows result = search grow_rules depth 16

  checked-Grows :
      (found : Option (Json ℕ)) (body : Fields ℕ)
      → Grows url {A = Json ℕ} (elim found [
        | some e ↦ raise (runtime ("MCP error: " <> w.show_json e))
        | none ↦ lift (at_key "result" body)
      ])
  checked-Grows none body = search grow_rules
  checked-Grows (some e) body = search grow_rules

  module _ (params : Json ℕ) where
    one_attempt-Grows : Grows url (one_attempt w server "tools/call" params)
    unfolding one_attempt
    one_attempt-Grows =
        Grows-bind _ _
          (Grows-ask (post server "tools/call" params) (λ h. w.post h server "tools/call" params))
          (λ parsed.
            Grows-bind _ _ (Grows-lift (object_of parsed))
              (λ body. checked-Grows (member "error" body) body))

    one_attempt-Offers :
        is_offer url (post server "tools/call" params) ≡ true
        → Offers url (one_attempt w server "tools/call" params)
    unfolding one_attempt
    one_attempt-Offers named =
        Offers-bind _ _
          (Offers-ask (post server "tools/call" params) (λ h. w.post h server "tools/call" params)
            named)
          (λ parsed.
            Grows-bind _ _ (Grows-lift (object_of parsed))
              (λ body. checked-Grows (member "error" body) body))

    after_last-Grows : (r : Result (Json ℕ)) → Grows url (after_last w r)
    unfolding after_last
    after_last-Grows (ok result) = search grow_rules
    after_last-Grows (err e) = search grow_rules

    after_attempt-Grows :
        (left : ℕ) (again : Calls Call (Json ℕ)) (r : Result (Json ℕ))
        → Grows url again
        → Grows url (after_attempt w left again r)
    unfolding after_attempt
    after_attempt-Grows left again (ok result) q = search grow_rules
    after_attempt-Grows left again (err e) q = search grow_rules depth 8

    attempts-Grows : (left : ℕ) → Grows url (attempts w left server "tools/call" params)
    unfolding attempts
    attempts-Grows zero = search (grow_rules, one_attempt-Grows, after_last-Grows)
    attempts-Grows (suc left) =
        Grows-bind _ _ (Grows-attempt (one_attempt w server "tools/call" params) one_attempt-Grows)
          (λ r.
            after_attempt-Grows (suc left) (attempts w left server "tools/call" params) r
              (attempts-Grows left))

    rpc-Grows : Grows url (rpc w server "tools/call" params)
    unfolding rpc
    rpc-Grows = attempts-Grows 2

    rpc-Offers :
        is_offer url (post server "tools/call" params) ≡ true
        → Offers url (rpc w server "tools/call" params)
    unfolding rpc attempts
    rpc-Offers named =
        Offers-bind _ _
          (Offers-attempt (one_attempt w server "tools/call" params) (one_attempt-Offers named))
          (λ r.
            after_attempt-Grows 2 (attempts w 1 server "tools/call" params) r (attempts-Grows 1))

  tool_call-Grows :
      (name : String) (arguments : Json ℕ) → Grows url (tool_call w server name arguments)
  unfolding tool_call
  tool_call-Grows name arguments =
      Grows-bind _ _ (rpc-Grows (obj (field "name" (str name) (field "arguments" arguments end))))
        load_text-Grows

module _ (w : Network) (server : Server) where
  add-Offers :
      (arguments : Json ℕ) → Offers server.url (tool_call w server "mempalace_add_drawer" arguments)
  unfolding tool_call
  add-Offers arguments =
      Offers-bind _ _
        (rpc-Offers w server server.url
          (obj (field "name" (str "mempalace_add_drawer") (field "arguments" arguments end)))
          (rw (eq_refl server.url) refl))
        (load_text-Grows w server server.url)

-- The drawers of a tally that are at the destination.
abbrev pub arrived : Tally → ℕ
arrived t = t.copied + t.already_exists

module _ (w : Network) (source dest : Server) where
  copy_one-Grows : (id : String) → Grows dest.url (copy_one w source dest id)
  unfolding copy_one
  copy_one-Grows id =
      search (grow_rules, tool_call-Grows w source dest.url, tool_call-Grows w dest dest.url) depth
        20

  copy_one-Returns : (id : String) → Returns dest.url (copy_one w source dest id)
  unfolding copy_one
  copy_one-Returns id =
      search
        (Returns-first, Returns-later, grow_rules, tool_call-Grows w source dest.url, add-Offers)
        depth 20

  -- What a drawer adds to the tally it adds to the offers.
  counted-arrived :
      (id : String) (t next : Tally) (r : Result Bool) (made : List Call)
      → (copy_one w source dest id made).0 ≡ r
      → counted w source dest t r ≡ ok next
      → offers dest.url made + arrived next
        ≤ offers dest.url (copy_one w source dest id made).1 + arrived t
  unfolding counted
  counted-arrived id t next (ok true) made h e =
      rw (← ok-injective _ next e) (omega (arith, (copy_one-Returns id).at made true h))
  counted-arrived id t next (ok false) made h e =
      rw (← ok-injective _ next e) (omega (arith, (copy_one-Returns id).at made false h))
  counted-arrived id t next (err (runtime message)) made h e =
      rw (← ok-injective _ next e) (omega (arith, (copy_one-Grows id).at made))
  counted-arrived id t next (err _) made h e = cc

  pub offers-migrate :
      (ids : List String) (t last : Tally) (made : List Call)
      → (migrate w source dest ids t made).0 ≡ ok last
      → offers dest.url made + arrived last
        ≤ offers dest.url (migrate w source dest ids t made).1 + arrived t
  unfolding migrate
  offers-migrate [] t last made h = rw (← ok-injective t last h) (omega arith)
  offers-migrate (id ∷ ids) t last made h =
      let after = (copy_one w source dest id made).1 in
      let outcome = (copy_one w source dest id made).0 in
      let (next, counts, goes) =
        bind-returns (lift (counted w source dest t outcome)) (migrate w source dest ids) after h in
      let ended : (migrate w source dest ids next after).0 ≡ ok last =
        sym (ap (λ x. x.0) goes) ∙ h in
      let whole : offers dest.url (migrate w source dest (id ∷ ids) t made).1
          ≡ offers dest.url (migrate w source dest ids next after).1 =
        ap (λ x. offers dest.url x.1) goes in
      omega (
        arith,
        whole,
        counted-arrived id t next outcome made refl counts,
        offers-migrate ids next last after ended,
      )
