-- ===== src/Ble/Invariant.antt =====
-- ble.py: what holds in every state that the tasks reach.
use solar_monitor.Prelude.{
  ℕ, ◌+◌, ◌≡◌, ◌≢◌, refl, ap, sym, ◌∙◌, ◌↔◌, true, false, none, some, ◌==◌, arith, ==_iff,
  Bool-cases, Option-cases, inl, inr,
}
use solar_monitor.Ble.Task.{
  Shared, Task, Move, quit, no_client, begin, acquire, connect, connect_fails, subscribe,
  subscribe_fails, hold, hold_ends, stop_after, retry, back_off, wake, cancel_locked,
  cancel_subscribing, cancel_waiting, cancel_holding, cancel_closing, cancel_backing_off, locks,
  serves, failures, IsHonest,
}
use solar_monitor.Ble.Fleet.{Fleet, Step, move, request_stop, Reach, start, later}

Move-IsHonest :
    {notify me : ℕ} {m m' : Shared} {t t' : Task}
    → Move notify me m t m' t'
    → IsHonest t
    → IsHonest t'
unfolding serves failures
Move-IsHonest (quit p s) h = (h.0 ∙ ap serves p, h.1, tt)
Move-IsHonest (no_client p s) h = (h.0 ∙ ap serves p, h.1, tt)
Move-IsHonest (begin p s) h = (h.0 ∙ ap serves p, h.1, tt)
Move-IsHonest (acquire p s) h = (h.0 ∙ ap serves p, h.1, tt)
Move-IsHonest (connect p) h = (refl, h.1, tt)
Move-IsHonest (connect_fails p) h = (refl, h.1, tt)
Move-IsHonest (subscribe p) h = (h.0 ∙ ap serves p, h.1, tt)
Move-IsHonest (subscribe_fails p) h = (refl, h.1, tt)
Move-IsHonest (hold p) h = (h.0 ∙ ap serves p, h.1, tt)
Move-IsHonest (hold_ends p) h = (refl, h.1, tt)
Move-IsHonest (stop_after p s) h = (h.0 ∙ ap serves p, h.1, tt)
Move-IsHonest (retry p s) h = (h.0 ∙ ap serves p, refl, tt)
Move-IsHonest (back_off p s) h = (h.0 ∙ ap serves p, ap (λ (a : ℕ). a + 1) h.1, omega arith)
Move-IsHonest (wake p) h = (h.0 ∙ ap serves p, h.1, tt)
Move-IsHonest (cancel_locked p) h = (refl, h.1, tt)
Move-IsHonest (cancel_subscribing p) h = (refl, h.1, tt)
Move-IsHonest (cancel_waiting p) h = (refl, h.1, tt)
Move-IsHonest (cancel_holding p) h = (refl, h.1, tt)
Move-IsHonest (cancel_closing p) h = (refl, h.1, tt)
Move-IsHonest (cancel_backing_off p) h = (refl, h.1, tt)

-- Who owns the lock, from the view of one task.
abbrev IsOwner : ℕ → Shared → Task → Type 0
IsOwner me m t = (locks t.phase ≡ true) ↔ (m.owner ≡ some me)

-- The step leaves the lock as it is, takes it, or gives it back.
data Turn (me : ℕ) (m : Shared) (t : Task) (m' : Shared) (t' : Task) : Type 0 where
  keeps : locks t'.phase ≡ locks t.phase → m'.owner ≡ m.owner → Turn me m t m' t'
  takes : m.owner ≡ none → locks t'.phase ≡ true → m'.owner ≡ some me → Turn me m t m' t'
  gives : locks t.phase ≡ true → locks t'.phase ≡ false → m'.owner ≡ none → Turn me m t m' t'

Move-Turn :
    {notify me : ℕ} {m m' : Shared} {t t' : Task} → Move notify me m t m' t' → Turn me m t m' t'
unfolding locks
Move-Turn (quit p s) = keeps (sym (ap locks p)) refl
Move-Turn (no_client p s) = keeps (sym (ap locks p)) refl
Move-Turn (begin p s) = keeps (sym (ap locks p)) refl
Move-Turn (acquire p s) = takes s refl refl
Move-Turn (connect p) = keeps (sym (ap locks p)) refl
Move-Turn (connect_fails p) = gives (ap locks p) refl refl
Move-Turn (subscribe p) = keeps (sym (ap locks p)) refl
Move-Turn (subscribe_fails p) = gives (ap locks p) refl refl
Move-Turn (hold p) = gives (ap locks p) refl refl
Move-Turn (hold_ends p) = keeps (sym (ap locks p)) refl
Move-Turn (stop_after p s) = keeps (sym (ap locks p)) refl
Move-Turn (retry p s) = keeps (sym (ap locks p)) refl
Move-Turn (back_off p s) = keeps (sym (ap locks p)) refl
Move-Turn (wake p) = keeps (sym (ap locks p)) refl
Move-Turn (cancel_locked p) = gives (ap locks p) refl refl
Move-Turn (cancel_subscribing p) = gives (ap locks p) refl refl
Move-Turn (cancel_waiting p) = keeps (sym (ap locks p)) refl
Move-Turn (cancel_holding p) = keeps (sym (ap locks p)) refl
Move-Turn (cancel_closing p) = keeps (sym (ap locks p)) refl
Move-Turn (cancel_backing_off p) = keeps (sym (ap locks p)) refl

Turn-IsOwner :
    {me : ℕ} {m m' : Shared} {t t' : Task} → Turn me m t m' t' → IsOwner me m t → IsOwner me m' t'
Turn-IsOwner (keeps p q) h = ground arith
Turn-IsOwner (takes f p q) h = ground arith
Turn-IsOwner (gives b p q) h = ground arith

Turn-others :
    {me : ℕ} {m m' : Shared} {t t' : Task}
    → Turn me m t m' t'
    → IsOwner me m t
    → (j : ℕ) (u : Task) → me ≢ j
    → IsOwner j m u
    → IsOwner j m' u
Turn-others (keeps p q) h j u ne k = ground arith
Turn-others (takes f p q) h j u ne k = ground arith
Turn-others (gives b p q) h j u ne k = ground arith

abbrev AllOwners : Fleet → Type 0
AllOwners s = (i : ℕ) → IsOwner i s.shared (s.task i)

abbrev AllHonest : Fleet → Type 0
AllHonest s = (i : ℕ) → IsHonest (s.task i)

Step-AllHonest : {notify : ℕ → ℕ} {s t : Fleet} → Step notify s t → AllHonest s → AllHonest t
Step-AllHonest {s = s} (move i {t = t} mv) h = λ j. elim (Bool-cases (i == j)) [
  | inl same ↦ rw same (Move-IsHonest mv (h i))
  | inr other ↦ rw other (h j)
]
Step-AllHonest request_stop h = h

Step-AllOwners : {notify : ℕ → ℕ} {s t : Fleet} → Step notify s t → AllOwners s → AllOwners t
Step-AllOwners {s = s} (move i {m = m} {t = t} mv) h = λ j. elim (Bool-cases (i == j)) [
  | inl same ↦
      let e : i ≡ j = (==_iff i j).0 same in rw (same, ← e) (Turn-IsOwner (Move-Turn mv) (h i))
  | inr other ↦
      let ne : i ≢ j = λ e. ground arith in
      rw other (Turn-others (Move-Turn mv) (h i) j (s.task j) ne (h j))
]
Step-AllOwners request_stop h = h

-- In every state that the tasks reach, whatever the radio does and whenever they are cancelled, a
-- device counts as connected exactly while its task subscribes or holds, `attempt` is the number of
-- rounds that failed since the last good one, and no task backs off with an `attempt` of 0.
pub Reach-IsHonest : {notify : ℕ → ℕ} {s : Fleet} → Reach notify s → (i : ℕ) → IsHonest (s.task i)
Reach-IsHonest start i = unfold serves failures in (refl, refl, tt)
Reach-IsHonest (later r st) i = Step-AllHonest st (Reach-IsHonest r) i

Reach-AllOwners : {notify : ℕ → ℕ} {s : Fleet} → Reach notify s → AllOwners s
Reach-AllOwners start i = unfold locks in ground arith
Reach-AllOwners (later r st) i = Step-AllOwners st (Reach-AllOwners r) i

-- In every state that the tasks reach, at most one of them connects or subscribes: two that do are
-- the same.
pub Reach-one :
    {notify : ℕ → ℕ} {s : Fleet}
    → Reach notify s
    → (i j : ℕ) → locks (s.task i).phase ≡ true
    → locks (s.task j).phase ≡ true
    → i ≡ j
Reach-one r i j p q =
    let a = (Reach-AllOwners r i).0 p in let b = (Reach-AllOwners r j).0 q in ground arith

-- The lock is owned exactly while its owner connects or subscribes, so it is free where nobody does.
pub Reach-free :
    {notify : ℕ → ℕ} {s : Fleet}
    → Reach notify s
    → ((i : ℕ) → locks (s.task i).phase ≡ false)
    → s.shared.owner ≡ none
Reach-free {s = s} r idle = elim (Option-cases s.shared.owner) [
  | inl free ↦ free
  | inr (i, owned) ↦
      let a = (Reach-AllOwners r i).1 owned in let b = idle i in absurd (ground arith)
]
