-- ===== src/Node/Seen.antt =====
-- The identifiers that a node has seen stay seen, whatever reaches it: cmd/node/gossip.go and
-- cmd/node/server.go.
use mathlib.Core.Option.{some-injective}
use edgesim_p2p.Base.{
  ℕ, ◌≡◌, inl, inr, refl, sym, ap, subst, ◌∙◌, String, true, false, List, [], ◌∷◌, Option, none,
  some, arith, Bool-cases, Option-cases,
}
use edgesim_p2p.Base.Int.{ℤ, pos, ltb_ℤ, eq_ℤ}
use edgesim_p2p.Base.Keys.{text_key, ne_of_same}
use edgesim_p2p.Base.Maps.{get, put, get-put, get-put_ne}
use edgesim_p2p.Wire.Text.{is_blank, trim_space, parse_message}
use edgesim_p2p.Node.State.{NodeState, set_reading, should_process_gossip, upsert_peer}
use edgesim_p2p.Node.Gossip.{
  Forward, select_gossip_targets, deliver, process, handle_gossip_message,
}
use edgesim_p2p.Node.Server.{Handled, hello, received, handle_message, handle_payload}

panic_absurd : {A : Type 0} {a : A} → ◌≡◌ {A = Option A} none (some a) → ⊥
panic_absurd h = ground arith

-- A message of this identifier has been seen.
abbrev pub Seen : {Reading : Type 0} → String → NodeState Reading → Type 0
Seen id s = (at : ℕ) × (get id s.seen_gossip ≡ some at)

-- What was seen before is seen after.
abbrev pub Keeps : {Reading : Type 0} → NodeState Reading → NodeState Reading → Type 0
Keeps s s' = (id : String) → Seen id s → Seen id s'

kept : {Reading : Type 0} (s s' : NodeState Reading) → s'.seen_gossip ≡ s.seen_gossip → Keeps s s'
kept s s' same id seen = (seen.0, ap (get id) same ∙ seen.1)

-- The node as it was, no reply, and gossip to no one.
abbrev pub ignored : {Reading : Type 0} → NodeState Reading → Handled Reading
ignored s = record { state = s; replies = []; gossip = ([], none) ∷ [] }

module _ {Reading : Type 0} (reading_node : Reading → String)
    (sort_strings : List String → List String) (perm : ℕ → List ℕ) (atoi : String → Option ℤ)
    (decode : String → Option Reading) (coordinator_addr : String) (fanout : ℤ) where
  -- What a message leads to, the process being alive.
  abbrev Effect : Type 0
  Effect = NodeState Reading × List String × Option Forward

  abbrev handle : ℕ → List String → NodeState Reading → Option Effect
  handle = handle_gossip_message reading_node sort_strings perm atoi decode coordinator_addr fanout

  deliver-seen :
      (id : String) (ttl : ℤ) (payload : String) (reading : Reading) (s : NodeState Reading)
      (e : Effect)
      → deliver reading_node sort_strings perm atoi decode coordinator_addr fanout id ttl payload
          reading s
        ≡ some e
      → e.0.seen_gossip ≡ s.seen_gossip
  unfolding deliver set_reading
  deliver-seen id ttl payload reading s e h = elim (Bool-cases (eq_ℤ ttl (pos 0))) [
    | inl last ↦ ap (λ (x : Effect). x.0.seen_gossip) (sym (some-injective _ _ (rw last at h)))
    | inr more ↦
        elim (Option-cases (
          select_gossip_targets reading_node sort_strings perm coordinator_addr fanout
            (set_reading reading_node reading s))) [
              | inl broken ↦
                  absurd (panic_absurd (rw (broken, select_gossip_targets) at rw more at h))
              | inr (targets, found) ↦
                  ap (λ (x : Effect). x.0.seen_gossip)
                    (sym (some-injective _ _ (rw (found, select_gossip_targets) at rw more at h)))
            ]
  ]

  process-seen :
      (id ttl_text payload : String) (s : NodeState Reading) (e : Effect)
      → process reading_node sort_strings perm atoi decode coordinator_addr fanout id ttl_text
          payload s
        ≡ some e
      → e.0.seen_gossip ≡ s.seen_gossip
  unfolding process
  process-seen id ttl_text payload s e h = elim (Option-cases (atoi ttl_text)) [
    | inl bad ↦
        ap (λ (x : Effect). x.0.seen_gossip) (sym (some-injective _ _ (rw (bad, process) at h)))
    | inr (ttl, e1) ↦ elim (Bool-cases (ltb_ℤ ttl (pos 0))) [
      | inl neg ↦
          ap (λ (x : Effect). x.0.seen_gossip)
            (sym (some-injective _ _ (rw (e1, neg, process) at h)))
      | inr fine ↦ elim (Option-cases (decode payload)) [
        | inl bad ↦
            ap (λ (x : Effect). x.0.seen_gossip)
              (sym (some-injective _ _ (rw (e1, fine, bad, process) at h)))
        | inr (reading, e2) ↦
            deliver-seen id ttl payload reading s e (rw (e1, fine, e2, process) at h)
      ]
    ]
  ]

  known_message :
      (now : ℕ) (id : String) (s : NodeState Reading) (at : ℕ)
      → get id s.seen_gossip ≡ some at
      → should_process_gossip now id s ≡ (s, false)
  unfolding should_process_gossip
  known_message now id s at h = rw (h, should_process_gossip) refl

  new_message :
      (now : ℕ) (id : String) (s : NodeState Reading)
      → get id s.seen_gossip ≡ none
      → should_process_gossip now id s ≡ (record s { seen_gossip = put id now s.seen_gossip }, true)
  unfolding should_process_gossip
  new_message now id s h = rw (h, should_process_gossip) refl

  -- A message of a seen identifier changes nothing and is sent to no one, whatever its other parts.
  repeat_ignored :
      (now : ℕ) (id : String) (parts : List String) (s : NodeState Reading)
      → Seen id s
      → handle now (id ∷ parts) s ≡ some (s, [], none)
  unfolding handle_gossip_message
  repeat_ignored now id [] s h = refl
  repeat_ignored now id (a ∷ []) s h = refl
  repeat_ignored now id (a ∷ b ∷ more) s h =
      rw (known_message now id s h.0 h.1, handle_gossip_message) refl

  handle-Seen :
      (now : ℕ) (id ttl_text payload : String) (more : List String) (s : NodeState Reading)
      (e : Effect)
      → handle now (id ∷ ttl_text ∷ payload ∷ more) s ≡ some e
      → Seen id e.0 × ((other : String) → Seen other s → Seen other e.0)
  unfolding handle_gossip_message
  handle-Seen now id ttl_text payload more s e h = elim (Option-cases (get id s.seen_gossip)) [
    | inr (at, known) ↦
        let same =
          ap (λ (x : Effect). x.0)
            (some-injective _ _
              (rw (known_message now id s at known, handle_gossip_message) at h)) in
        (subst (Seen id) same (at, known), λ other seen. subst (Seen other) same seen)
    | inl new ↦
        let kept =
          process-seen id ttl_text payload (record s { seen_gossip = put id now s.seen_gossip }) e
            (rw (new_message now id s new, handle_gossip_message) at h) in
        (
          (now, ap (get id) kept ∙ get-put id now s.seen_gossip),
          λ other seen. elim (Bool-cases (text_key.same other id)) [
            | inl same ↦ (
              now,
              ap (get other) kept
                  ∙ ap (λ z. get z (put id now s.seen_gossip)) ((text_key.same_iff other id).0 same)
                  ∙ get-put id now s.seen_gossip,
            )
            | inr differs ↦ (
              seen.0,
              ap (get other) kept
                  ∙ get-put_ne other id now s.seen_gossip (ne_of_same other id differs)
                  ∙ seen.1,
            )
          ],
        )
  ]

  handle-Keeps :
      (now : ℕ) (parts : List String) (s : NodeState Reading) (e : Effect)
      → handle now parts s ≡ some e
      → Keeps s e.0
  unfolding handle_gossip_message
  handle-Keeps now [] s e h =
      kept s e.0 (ap (λ (x : Effect). x.0.seen_gossip) (sym (some-injective _ _ h)))
  handle-Keeps now (a ∷ []) s e h =
      kept s e.0 (ap (λ (x : Effect). x.0.seen_gossip) (sym (some-injective _ _ h)))
  handle-Keeps now (a ∷ b ∷ []) s e h =
      kept s e.0 (ap (λ (x : Effect). x.0.seen_gossip) (sym (some-injective _ _ h)))
  handle-Keeps now (id ∷ ttl_text ∷ payload ∷ more) s e h =
      (handle-Seen now id ttl_text payload more s e h).1

  hello-seen :
      (now : ℕ) (parts : List String) (s : NodeState Reading)
      → (hello now parts s).state.seen_gossip ≡ s.seen_gossip
  unfolding hello upsert_peer
  hello-seen now [] s = refl
  hello-seen now (id ∷ []) s = refl
  hello-seen now (id ∷ addr ∷ more) s = elim (Bool-cases (text_key.same addr "")) [
    | inl empty ↦ rw empty refl
    | inr named ↦ rw named refl
  ]

  module _ (text : List ℕ → String) (to_upper : String → String) (rfc3339 : ℕ → String) where
    abbrev pub message : ℕ → String → List String → NodeState Reading → Option (Handled Reading)
    message =
        handle_message reading_node sort_strings perm atoi decode coordinator_addr fanout text
          to_upper rfc3339

    abbrev pub payload : ℕ → List ℕ → NodeState Reading → Option (Handled Reading)
    payload =
        handle_payload reading_node sort_strings perm atoi decode coordinator_addr fanout text
          to_upper rfc3339

    received-seen :
        (now : ℕ) (parts : List String) (s : NodeState Reading)
        → (received rfc3339 now parts s).state.seen_gossip ≡ s.seen_gossip
    unfolding received
    received-seen now [] s = refl
    received-seen now (from ∷ []) s = refl
    received-seen now (from ∷ said ∷ more) s = refl

    -- A handler that leaves the identifiers alone.
    left_alone :
        (s : NodeState Reading) (g h : Handled Reading)
        → g.state.seen_gossip ≡ s.seen_gossip
        → some g ≡ some h
        → Keeps s h.state
    left_alone s g h same e =
        kept s h.state
          (ap (λ (x : Handled Reading). x.state.seen_gossip) (sym (some-injective _ _ e)) ∙ same)

    message-Keeps :
        (now : ℕ) (kind : String) (parts : List String) (s : NodeState Reading)
        (h : Handled Reading)
        → message now kind parts s ≡ some h
        → Keeps s h.state
    unfolding handle_message
    message-Keeps now kind parts s h e = elim (Bool-cases (text_key.same kind "HELLO")) [
      | inl a ↦ left_alone s _ h (hello-seen now parts s) (rw a at e)
      | inr a ↦ elim (Bool-cases (text_key.same kind "GETPEERS")) [
        | inl b ↦ left_alone s _ h refl (rw (a, b) at e)
        | inr b ↦ elim (Bool-cases (text_key.same kind "MESSAGE")) [
          | inl c ↦ left_alone s _ h (received-seen now parts s) (rw (a, b, c) at e)
          | inr c ↦ elim (Bool-cases (text_key.same kind "GOSSIP")) [
            | inr d ↦ left_alone s _ h refl (rw (a, b, c, d) at e)
            | inl d ↦ elim (Option-cases (handle now parts s)) [
              | inl broken ↦ absurd (panic_absurd (rw broken at rw (a, b, c, d) at e))
              | inr (effect, ok) ↦
                  let same = some-injective _ _ (rw ok at rw (a, b, c, d) at e) in
                  subst (Keeps s) (ap (λ (x : Handled Reading). x.state) same)
                    (handle-Keeps now parts s effect ok)
            ]
          ]
        ]
      ]
    ]

    payload-Keeps :
        (now : ℕ) (bytes : List ℕ) (s : NodeState Reading) (h : Handled Reading)
        → payload now bytes s ≡ some h
        → Keeps s h.state
    unfolding handle_payload
    payload-Keeps now bytes s h e = elim (Bool-cases (is_blank (trim_space (text bytes)))) [
      | inl blank ↦ left_alone s _ h refl (rw blank at e)
      | inr more ↦
          let parsed = parse_message to_upper (trim_space (text bytes)) in
          message-Keeps now parsed.0 parsed.1 s h (rw more at e)
    ]

    -- Payloads that reach the node one after the other, of whatever kind, over whatever connections; none is a
    -- panic.
    abbrev pub receive_all : List (ℕ × List ℕ) → NodeState Reading → Option (NodeState Reading)
    receive_all [] s = some s
    receive_all ((now, bytes) ∷ events) s = elim (payload now bytes s) [
      | none ↦ none
      | some h ↦ receive_all events h.state
    ]

    pub receive_all-Keeps :
        (events : List (ℕ × List ℕ)) (s s' : NodeState Reading)
        → receive_all events s ≡ some s'
        → Keeps s s'
    receive_all-Keeps [] s s' e = subst (Keeps s) (some-injective _ _ e) (λ id seen. seen)
    receive_all-Keeps ((now, bytes) ∷ events) s s' e = elim (Option-cases (payload now bytes s)) [
      | inl broken ↦ absurd (panic_absurd (rw (broken, receive_all) at e))
      | inr (h, ok) ↦ λ id seen.
          receive_all-Keeps events h.state s' (rw (ok, receive_all) at e) id
            (payload-Keeps now bytes s h ok id seen)
    ]

    -- A gossip message with all its parts marks its identifier.
    pub message-Seen :
        (now : ℕ) (id ttl_text reading : String) (more : List String) (s : NodeState Reading)
        (h : Handled Reading)
        → message now "GOSSIP" (id ∷ ttl_text ∷ reading ∷ more) s ≡ some h
        → Seen id h.state
    unfolding handle_message
    message-Seen now id ttl_text reading more s h e =
        elim (Option-cases (handle now (id ∷ ttl_text ∷ reading ∷ more) s)) [
          | inl broken ↦ absurd (panic_absurd (rw broken at e))
          | inr (effect, ok) ↦
              subst (Seen id)
                (ap (λ (x : Handled Reading). x.state) (some-injective _ _ (rw ok at e)))
                (handle-Seen now id ttl_text reading more s effect ok).0
        ]

    pub message-ignored :
        (now : ℕ) (id : String) (parts : List String) (s : NodeState Reading)
        → Seen id s
        → message now "GOSSIP" (id ∷ parts) s ≡ some (ignored s)
    unfolding handle_message
    message-ignored now id parts s seen = rw (repeat_ignored now id parts s seen) refl
