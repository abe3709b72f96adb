-- ===== src/Aquarius/Events/Classify.antt =====
-- aquarius/transform.go, `decodeActivities`: what an event gives, by class, name and ledger.
use lidapters.Common.{
  ◌≡◌, ◌≢◌, ◌↔◌, refl, true, false, Option, none, some, List, [], ◌∷◌, arith, ◌≤◌, Bool-cases,
  Option-cases, inl, inr, length, ◌+◌,
}
use lidapters.Common.Int.{ℤ, ltb_ℤ}
use lidapters.Common.Str.{Str}
use lidapters.Common.Dict.{Dict, lookup}
use lidapters.Xdr.{Xdr, EventBody}
use lidapters.Bindings.Rows.{RawEventEnvelope, Activity, QuarantineEvent}
use lidapters.Aquarius.Config.{Adapter}
use lidapters.Aquarius.Values.{symbol_or_first}
use lidapters.Aquarius.Events.{
  EventEra, event_eras_by_class, activity_row, classify_name, decode_body, by_class,
  decode_activities,
}

-- The era of a name in the table of a class, if the class has one.
abbrev pub era_in : Option (Dict EventEra) → Str → Option EventEra
era_in none name = none
era_in (some eras) name = lookup name eras

-- What an outcome says about an era, if there is one, of the name.
abbrev pub Respects : Option EventEra → ℤ → List Activity × List QuarantineEvent → Type 0
Respects found seq (acts, held_back) =
    ((held_back ≡ []) ↔ ((e : EventEra) × (found ≡ some e) × (ltb_ℤ seq e.from_ledger ≡ false)))
    × ((acts ≢ []) ↔ (
        (e : EventEra) × (found ≡ some e)
        × (ltb_ℤ seq e.from_ledger ≡ false)
        × (e.activity ≡ true)))
    × (length acts + length held_back ≤ 1)

unknown : (q : QuarantineEvent) (seq : ℤ) → Respects none seq ([], q ∷ [])
unknown q seq =
    ((λ e. cc, λ (m, f, g). cc), (λ e. elim (e refl) [ ], λ (m, f, g, h). cc), omega arith)

early :
    (q : QuarantineEvent) (seq : ℤ) (e : EventEra)
    → ltb_ℤ seq e.from_ledger ≡ true
    → Respects (some e) seq ([], q ∷ [])
early q seq e b =
    ((λ f. cc, λ (m, f, g). cc), (λ f. elim (f refl) [ ], λ (m, f, g, h). cc), omega arith)

served :
    (r : Activity) (seq : ℤ) (e : EventEra)
    → ltb_ℤ seq e.from_ledger ≡ false
    → e.activity ≡ true
    → Respects (some e) seq (r ∷ [], [])
served r seq e b c =
    ((λ f. (e, refl, b), λ m. refl), (λ f. (e, refl, b, c), λ m f. cc), omega arith)

passed :
    (seq : ℤ) (e : EventEra)
    → ltb_ℤ seq e.from_ledger ≡ false
    → e.activity ≡ false
    → Respects (some e) seq ([], [])
passed seq e b c =
    ((λ f. (e, refl, b), λ m. refl), (λ f. elim (f refl) [ ], λ (m, f, g, h). cc), omega arith)

module _ (x : Xdr) (a : Adapter) (evt : RawEventEnvelope) (class : Str) where
  open x use {ScVal}

  classify_name-Respects :
      (name : Str) (eras : Dict EventEra) (body : EventBody ScVal)
      → Respects (lookup name eras) evt.ledger_seq (classify_name x a evt class name eras body)
  unfolding classify_name
  classify_name-Respects name eras body = elim (Option-cases (lookup name eras)) [
    | inl e ↦ rw (e, classify_name) (unknown _ evt.ledger_seq)
    | inr (m, e) ↦ elim (Bool-cases (ltb_ℤ evt.ledger_seq m.from_ledger)) [
      | inl b ↦ rw (e, classify_name, b) (early _ evt.ledger_seq m b)
      | inr b ↦
          let served_row = activity_row x a evt class name body in
          elim (Bool-cases m.activity) [
            | inl c ↦
                let same : classify_name x a evt class name eras body ≡ (served_row ∷ [], []) =
                  ground arith in
                rw (e, same) (served served_row evt.ledger_seq m b c)
            | inr c ↦
                let same : classify_name x a evt class name eras body ≡ ([], []) = ground arith in
                rw (e, same) (passed evt.ledger_seq m b c)
          ]
    ]
  ]

  by_class-Respects :
      (t : ScVal) (body : EventBody ScVal) (found : Option (Dict EventEra))
      → Respects
          (era_in found (symbol_or_first x t))
          evt.ledger_seq
          (by_class x a evt class t body found)
  unfolding by_class
  by_class-Respects t body none = unknown _ evt.ledger_seq
  by_class-Respects t body (some eras) = classify_name-Respects (symbol_or_first x t) eras body

  -- An event that decodes to a body with a topic gives one row at most. It is quarantined unless
  -- the class of its contract has an era for its name and its ledger is not below the floor of that
  -- era; it is served as an activity exactly if moreover the era says that the name is one.
  pub decode_activities-era_of :
      (t : ScVal) (ts : List ScVal) (payload : ScVal)
      → x.unmarshal_event evt.raw_event
        ≡ some (some (record { topics = t ∷ ts; payload = payload }))
      → Respects
          (era_in (lookup class event_eras_by_class) (symbol_or_first x t))
          evt.ledger_seq
          (decode_activities x a evt class)
  unfolding decode_activities decode_body by_class
  decode_activities-era_of t ts payload h =
      rw (h, decode_activities)
        (by_class-Respects t (record { topics = t ∷ ts; payload = payload })
          (lookup class event_eras_by_class))
