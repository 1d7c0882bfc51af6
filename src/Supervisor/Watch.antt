-- ===== src/Supervisor/Watch.antt =====
-- supervisor.py: what the queue keeps, what is logged, and when the daemon gives up.
use solar_monitor.Prelude.{
  ℕ, zero, suc, ◌+◌, ◌-◌, ◌≤◌, ◌<◌, ◌≡◌, ◌↔◌, ◌≢◌, refl, ◌∙◌, sym, Bool, true, false, not, ◌&&◌,
  Option, none, some, List, [], ◌∷◌, ◌++◌, length, ltb, ◌==◌, String, arith, Bool-cases, inl, inr,
  length-append, take, append_assoc, append-nil, ltb→lt,
}
use solar_monitor.Numbers.{Num}
use solar_monitor.Supervisor.{
  Item, try_put, enqueue, enqueue_all, log_item, run_logger, is_stale, stale, any_expected,
  Observation, all_stale, supervise,
}

take_nil {ℓ} : {A : Type ℓ} (m : ℕ) → take {A = A} m [] ≡ []
take_nil zero = refl
take_nil (suc m) = refl

enqueue_room {ℓ} :
    {V : Type ℓ} (maxsize : ℕ) (q : List V) (dropped : ℕ) (item : V)
    → length q < maxsize
    → enqueue maxsize (q, dropped) item ≡ (q ++ (item ∷ []), dropped)
unfolding enqueue try_put
enqueue_room maxsize q dropped item h =
    let test : (ltb 0 maxsize && not (ltb (length q) maxsize)) ≡ false = ground arith in rw test

enqueue_full {ℓ} :
    {V : Type ℓ} (maxsize : ℕ) (q : List V) (dropped : ℕ) (item : V)
    → 0 < maxsize
    → maxsize ≤ length q
    → enqueue maxsize (q, dropped) item ≡ (q, dropped + 1)
unfolding enqueue try_put
enqueue_full maxsize q dropped item h k =
    let test : (ltb 0 maxsize && not (ltb (length q) maxsize)) ≡ true = ground arith in rw test

-- Every item of a burst is kept in order while there is room and dropped and counted afterwards:
-- nothing blocks and nothing that was queued before is lost.
pub enqueue_all-room {ℓ} :
    {V : Type ℓ} (maxsize : ℕ) (q : List V) (dropped : ℕ) (items : List V)
    → 0 < maxsize
    → length q ≤ maxsize
    → let room = maxsize - length q in
      enqueue_all maxsize (q, dropped) items
      ≡ (q ++ take room items, dropped + (length items - room))
unfolding enqueue_all
enqueue_all-room maxsize q dropped [] h k =
    let none_over : dropped + (0 - (maxsize - length q)) ≡ dropped = omega arith in
    rw (none_over, take_nil (maxsize - length q), append-nil q)
enqueue_all-room {V = V} maxsize q dropped (item ∷ items) h k =
    elim (Bool-cases (ltb (length q) maxsize)) [
      | inl p ↦
          let lt = ltb→lt (length q) maxsize p in
          let size = length-append q (item ∷ []) in
          let left : maxsize - length (q ++ (item ∷ [])) ≡ maxsize - length q - 1 =
            omega (arith, size) in
          let room : maxsize - length q ≡ suc (maxsize - length q - 1) = omega (arith, lt) in
          let over' : length items - (maxsize - length q - 1)
              ≡ suc (length items) - suc (maxsize - length q - 1) =
            omega (arith, lt) in
          let ih =
            enqueue_all-room maxsize (q ++ (item ∷ [])) dropped items h (omega (arith, lt, size)) in
          rw (enqueue_room maxsize q dropped item lt, room)
            (ih
              ∙ rw (left, over', append_assoc q (item ∷ []) (take (maxsize - length q - 1) items)))
      | inr p ↦
          let ih = enqueue_all-room maxsize q (dropped + 1) items h k in
          let full : maxsize - length q ≡ 0 = ground arith in
          let over : dropped + 1 + (length items - 0) ≡ dropped + (suc (length items) - 0) =
            omega arith in
          rw (enqueue_full maxsize q dropped item h (omega (arith, full)), ih, full, over)
    ]

-- A logger that also keeps a list of what it was asked to log, whether that raised or not.
abbrev pub traced {ℓ κ} :
    {V : Type ℓ} {S : Type κ}
    → (Item V → S → S × Bool)
    → Item V
    → S × List (Item V)
    → (S × List (Item V)) × Bool
traced log i (s, seen) = (((log i s).0, seen ++ (i ∷ [])), (log i s).1)

abbrev pub untraced {ℓ κ} :
    {V : Type ℓ} {S : Type κ}
    → (String → S → S × Bool)
    → String
    → S × List (Item V)
    → (S × List (Item V)) × Bool
untraced on_item name (s, seen) = (((on_item name s).0, seen), (on_item name s).1)

abbrev pub items {ℓ} : {V : Type ℓ} → List (Option V) → List V
items [] = []
items (none ∷ got) = items got
items (some i ∷ got) = i ∷ items got

log_item-traced {ℓ κ} :
    {V : Type ℓ} {S : Type κ} (log : Item V → S → S × Bool) (on_item : String → S → S × Bool)
    → (i : Item V) (s : S) (seen : List (Item V))
    → log_item (traced log) (untraced on_item) i (s, seen)
      ≡ (log_item log on_item i s, seen ++ (i ∷ []))
unfolding log_item
log_item-traced log on_item i s seen = elim (Bool-cases (log i s).1) [
  | inl p ↦ rw p refl
  | inr p ↦ rw p refl
]

-- Every item that comes off the queue is logged, once and in order, whichever of them raise in the
-- logger or after it.
pub run_logger-every {ℓ κ} :
    {V : Type ℓ} {S : Type κ} (log : Item V → S → S × Bool) (on_item : String → S → S × Bool)
    → (got : List (Option (Item V))) (s : S) (seen : List (Item V))
    → (run_logger (traced log) (untraced on_item) got (s, seen)).1 ≡ seen ++ items got
unfolding run_logger
run_logger-every log on_item [] s seen = sym (append-nil seen)
run_logger-every log on_item (none ∷ got) s seen = run_logger-every log on_item got s seen
run_logger-every log on_item (some i ∷ got) s seen =
    let rest = run_logger-every log on_item got (log_item log on_item i s) (seen ++ (i ∷ [])) in
    rw (run_logger, log_item-traced log on_item i s seen)
      (rest ∙ append_assoc seen (i ∷ []) (items got))

module _ {ℓ} {T : Type ℓ} ⦃n : Num T⦄ where
  stale-le :
      (now timeout_s : T) (last : List (String × T))
      → length (stale now timeout_s last) ≤ length last
  unfolding stale
  stale-le now timeout_s [] = omega arith
  stale-le now timeout_s ((name, t) ∷ last) =
      let ih = stale-le now timeout_s last in
      elim (Bool-cases (is_stale now timeout_s t)) [
        | inl p ↦ rw p (omega (arith, ih))
        | inr p ↦ rw p (omega (arith, ih))
      ]

  -- Every reading is older than the timeout.
  abbrev pub AllStale : T → T → List (String × T) → Type 0
  AllStale now timeout_s [] = Unit
  AllStale now timeout_s ((name, t) ∷ last) =
      (is_stale now timeout_s t ≡ true) × AllStale now timeout_s last

  stale-all :
      (now timeout_s : T) (last : List (String × T))
      → ((length (stale now timeout_s last) == length last) ≡ true) ↔ AllStale now timeout_s last
  unfolding stale
  stale-all now timeout_s [] = (λ h. tt, λ h. refl)
  stale-all now timeout_s ((name, t) ∷ last) =
      let ih = stale-all now timeout_s last in
      let le = stale-le now timeout_s last in
      elim (Bool-cases (is_stale now timeout_s t)) [
        | inl p ↦ rw p ((λ h. (refl, ih.0 (ground (arith, h)))), λ h. ground (arith, ih.1 h.1))
        | inr p ↦ rw p ((ground (arith, le)), λ h. ground (arith, h.0))
      ]

  gives_up :
      (now timeout_s : T) (last : List (String × T))
      → ((any_expected last && (length (stale now timeout_s last) == length last)) ≡ true)
        ↔ ((last ≢ []) × AllStale now timeout_s last)
  gives_up now timeout_s [] = (ground arith, λ h. absurd (h.0 refl))
  gives_up now timeout_s (e ∷ last) =
      let both = stale-all now timeout_s (e ∷ last) in
      (λ h. (ground arith, both.0 h), λ h. both.1 h.1)

  -- The tracker gives up on the devices exactly when there is one and all of them are stale.
  all_stale_iff :
      (stale_timeout : T) (o : Observation T)
      → (all_stale stale_timeout o ≡ true) ↔ ((o.last ≢ []) × AllStale o.now stale_timeout o.last)
  unfolding all_stale
  all_stale_iff stale_timeout o = gives_up o.now stale_timeout o.last

  abbrev pub IsCalm : T → Observation T → Type 0
  IsCalm stale_timeout o =
      (o.stopped ≡ false) × (o.consumer_done ≡ false) × (all_stale stale_timeout o ≡ false)

  abbrev pub AllCalm : T → List (Observation T) → Type 0
  AllCalm stale_timeout [] = Unit
  AllCalm stale_timeout (o ∷ os) = IsCalm stale_timeout o × AllCalm stale_timeout os

  -- The watch goes on exactly as long as no stop is requested, the consumer lives, and the devices
  -- are not all stale.
  pub supervise-none :
      (stale_timeout : T) (os : List (Observation T))
      → (supervise stale_timeout os ≡ none) ↔ AllCalm stale_timeout os
  unfolding supervise
  supervise-none stale_timeout [] = (λ h. tt, λ h. refl)
  supervise-none stale_timeout (o ∷ os) = ground (arith, supervise-none stale_timeout os)
