-- ===== src/Soroswap/Transform/Classify.antt =====
-- soroswap/transform.go: `classifyEvent` and the rows of events.
use lidapters.Common.{
  ◌+◌, ◌≤◌, ◌≡◌, refl, sym, ap, ◌∙◌, ◌↔◌, ◌⊎◌, inl, inr, true, Option, none, some, List, [], ◌∷◌,
  arith, length, length-append, Bool-cases, Option-cases,
}
use lidapters.Common.Str.{Str, lit, eq_str, eq_str_iff}
use lidapters.Common.Dict.{mem}
use lidapters.Xdr.{Xdr, EventBody}
use lidapters.Bindings.Rows.{RawEventEnvelope, Activity, QuarantineEvent}
use lidapters.Soroswap.Config.{Adapter, owns_contract}
use lidapters.Soroswap.Transform.{
  pair_activity_vocabulary, factory_event_names, router_event_names, token_echo_names, quarantine,
  pair_activity, event_name, classify_labelled, classify_topics, classify_event, opt_list,
  event_rows, Class, refuse,
}

module _ (x : Xdr) (a : Adapter) where
  open x use {ScVal, get_str, get_sym, unmarshal_event}

  -- An event of the pair contract with a name of the vocabulary.
  abbrev pub IsPairEvent : Str → List ScVal → Type 0
  IsPairEvent name [] = ⊥
  IsPairEvent name (t ∷ ts) =
      (get_str t ≡ some (lit "SoroswapPair"))
      × (event_name x a ts ≡ name)
      × (mem name pair_activity_vocabulary ≡ true)

  -- An event that the protocol emits and that is no activity: of the factory, of a router, or the
  -- echo of an LP token.
  abbrev pub IsPlumbing : List ScVal → Type 0
  IsPlumbing [] = ⊥
  IsPlumbing (t ∷ ts) =
      ((get_str t ≡ some (lit "SoroswapFactory"))
        × (mem (event_name x a ts) factory_event_names ≡ true))
      ⊎ ((get_str t ≡ some (lit "SoroswapRouter"))
          × (mem (event_name x a ts) router_event_names ≡ true))
      ⊎ ((get_str t ≡ none) × ((s : Str) × (get_sym t ≡ some s) × (mem s token_echo_names ≡ true)))

  topics_silent :
      (evt : RawEventEnvelope) (topics : List ScVal) (payload : ScVal)
      → classify_topics x a evt topics payload ≡ (none, none)
      → IsPlumbing topics
  unfolding classify_topics classify_labelled refuse
  topics_silent evt [] payload h = ground arith
  topics_silent evt (t ∷ ts) payload h = elim (Option-cases (get_str t)) [
    | inl e ↦ elim (Option-cases (get_sym t)) [
      | inl f ↦ ground arith
      | inr (s, f) ↦ inr (inr (e, (s, f, ground arith)))
    ]
    | inr (label, e) ↦
        ground
          (arith, eq_str_iff label (lit "SoroswapFactory"), eq_str_iff label (lit "SoroswapRouter"))
  ]

  plumbing_silent :
      (evt : RawEventEnvelope) (topics : List ScVal) (payload : ScVal)
      → IsPlumbing topics
      → classify_topics x a evt topics payload ≡ (none, none)
  unfolding classify_topics classify_labelled eq_str mem
  plumbing_silent evt [] payload h = absurd h
  plumbing_silent evt (t ∷ ts) payload (inl (e, n)) = rw (e, classify_topics) (ground arith)
  plumbing_silent evt (t ∷ ts) payload (inr (inl (e, n))) = rw (e, classify_topics) (ground arith)
  plumbing_silent evt (t ∷ ts) payload (inr (inr (e, (s, f, n)))) =
      rw (e, f, n, classify_topics) refl

  topics_activity :
      (evt : RawEventEnvelope) (topics : List ScVal) (payload : ScVal) (act : Activity)
      → (classify_topics x a evt topics payload).0 ≡ some act
      → (name : Str) × IsPairEvent name topics × (pair_activity x a evt name payload ≡ act)
  unfolding classify_topics classify_labelled refuse
  topics_activity evt [] payload act h = cc
  topics_activity evt (t ∷ ts) payload act h = elim (Option-cases (get_str t)) [
    | inl e ↦ absurd (ground arith)
    | inr (label, e) ↦
        (event_name x a ts, ground (arith, eq_str_iff label (lit "SoroswapPair")), ground arith)
  ]

  pair_event_activity :
      (evt : RawEventEnvelope) (name : Str) (topics : List ScVal) (payload : ScVal)
      → IsPairEvent name topics
      → classify_topics x a evt topics payload ≡ (some (pair_activity x a evt name payload), none)
  unfolding classify_topics classify_labelled eq_str
  pair_event_activity evt name [] payload h = absurd h
  pair_event_activity evt name (t ∷ ts) payload (e, n, m) = rw (e, n, m, classify_topics) refl

  -- How the raw bytes of an event decode.
  decodings :
      (raw : Str)
      → (unmarshal_event raw ≡ none)
        ⊎ (unmarshal_event raw ≡ some none)
        ⊎ ((body : EventBody ScVal) × (unmarshal_event raw ≡ some (some body)))
  decodings raw = elim (Option-cases (unmarshal_event raw)) [
    | inl e ↦ inl e
    | inr (o, e) ↦ elim (Option-cases o) [
      | inl f ↦ inr (inl (e ∙ ap some f))
      | inr (body, f) ↦ inr (inr (body, e ∙ ap some f))
    ]
  ]

  module _ (evt : RawEventEnvelope) (owned : owns_contract a evt.contract_id ≡ true) where
    classify_decoded :
        (body : EventBody ScVal)
        → unmarshal_event evt.raw_event ≡ some (some body)
        → classify_event x a evt ≡ classify_topics x a evt body.topics body.payload
    unfolding classify_event
    classify_decoded body e = rw (owned, e, classify_event) refl

    undecoded_refused :
        (unmarshal_event evt.raw_event ≡ none) ⊎ (unmarshal_event evt.raw_event ≡ some none)
        → (reason : Str) × (classify_event x a evt ≡ (none, some (quarantine x a evt reason)))
    unfolding classify_event refuse
    undecoded_refused (inl e) =
        (lit "soroswap_event_undecodable", rw (owned, e, classify_event) refl)
    undecoded_refused (inr e) =
        (lit "soroswap_event_empty_topics", rw (owned, e, classify_event) refl)

    -- An event of an owned contract passes without a trace exactly if it decodes to one that is
    -- recognized as plumbing: of the factory, of a router, or the echo of an LP token.
    pub classify_event_silent_iff : (classify_event x a evt ≡ (none, none)) ↔ (
        (body : EventBody ScVal) × (unmarshal_event evt.raw_event ≡ some (some body))
        × IsPlumbing body.topics)
    classify_event_silent_iff = (
      λ h. elim (decodings evt.raw_event) [
        | inl e ↦ let (r, f) = undecoded_refused (inl e) in cc
        | inr (inl e) ↦ let (r, f) = undecoded_refused (inr e) in cc
        | inr (inr (body, e)) ↦ (
          body,
          e,
          topics_silent evt body.topics body.payload (sym (classify_decoded body e) ∙ h),
        )
      ],
      λ (body, e, p). classify_decoded body e ∙ plumbing_silent evt body.topics body.payload p,
    )

    -- An event of an owned contract becomes an activity exactly if it decodes to an event of the
    -- pair contract whose name is in the vocabulary, and the activity is the one that is built
    -- from that name and the payload.
    pub classify_event_activity_iff :
        (act : Activity)
        → ((classify_event x a evt).0 ≡ some act) ↔ (
            (body : EventBody ScVal) × (name : Str) × (unmarshal_event evt.raw_event
              ≡ some (some body))
            × IsPairEvent name body.topics
            × (pair_activity x a evt name body.payload ≡ act))
    classify_event_activity_iff act = (
      λ h. elim (decodings evt.raw_event) [
        | inl e ↦ let (r, f) = undecoded_refused (inl e) in cc
        | inr (inl e) ↦ let (r, f) = undecoded_refused (inr e) in cc
        | inr (inr (body, e)) ↦
            let (name, p, q) =
              topics_activity evt body.topics body.payload act
                (ap (λ (c : Class x a). c.0) (sym (classify_decoded body e)) ∙ h) in
            (body, name, e, p, q)
      ],
      λ (body, name, e, p, q).
          ap (λ (c : Class x a). c.0)
            (classify_decoded body e ∙ pair_event_activity evt name body.topics body.payload p)
          ∙ ap some q,
    )

  -- A result that is no quarantine, or one that keeps what the event brought and no activity.
  abbrev pub Keeps : RawEventEnvelope → Class x a → Type 0
  Keeps evt (act, none) = Unit
  Keeps evt (act, some q) =
      (act ≡ none)
      × (q.raw_event ≡ evt.raw_event)
      × (q.contract_id ≡ evt.contract_id)
      × (q.ledger_seq ≡ evt.ledger_seq)
      × (q.tx_hash ≡ evt.tx_hash)
      × (q.event_index ≡ evt.event_index)

  topics-Keeps :
      (evt : RawEventEnvelope) (topics : List ScVal) (payload : ScVal)
      → Keeps evt (classify_topics x a evt topics payload)
  unfolding classify_topics classify_labelled refuse quarantine
  topics-Keeps evt [] payload = ground arith
  topics-Keeps evt (t ∷ ts) payload = ground arith

  -- If an event is quarantined, the entry keeps its raw bytes, its contract and its place in the
  -- ledger, and the event is no activity.
  pub classify_event-Keeps : (evt : RawEventEnvelope) → Keeps evt (classify_event x a evt)
  unfolding classify_event refuse quarantine
  classify_event-Keeps evt = elim (Bool-cases (owns_contract a evt.contract_id)) [
    | inr e ↦ rw (e, classify_event) tt
    | inl e ↦ elim (decodings evt.raw_event) [
      | inl f ↦
          let (r, g) = undecoded_refused evt e (inl f) in rw g (refl, refl, refl, refl, refl, refl)
      | inr (inl f) ↦
          let (r, g) = undecoded_refused evt e (inr f) in rw g (refl, refl, refl, refl, refl, refl)
      | inr (inr (body, f)) ↦
          rw (classify_decoded evt e body f) (topics-Keeps evt body.topics body.payload)
    ]
  ]

  one_row :
      (evt : RawEventEnvelope) (act : Option Activity) (q : Option QuarantineEvent)
      → Keeps evt (act, q)
      → length (opt_list act) + length (opt_list q) ≤ 1
  unfolding opt_list
  one_row evt none none h = omega arith
  one_row evt (some act) none h = omega arith
  one_row evt none (some q) h = omega arith
  one_row evt (some act) (some q) h = cc

  -- A list of events gives at most as many activities and quarantine entries together as it has
  -- events.
  pub event_rows-length :
      (evts : List RawEventEnvelope)
      → length (event_rows x a evts).0 + length (event_rows x a evts).1 ≤ length evts
  unfolding event_rows
  event_rows-length [] = omega arith
  event_rows-length (evt ∷ evts) =
      let (act, q) = classify_event x a evt in
      omega (
        arith,
        one_row evt act q (classify_event-Keeps evt),
        event_rows-length evts,
        length-append (opt_list act) (event_rows x a evts).0,
        length-append (opt_list q) (event_rows x a evts).1,
      )
