-- ===== src/Ble/Manager.antt =====
-- ble.py: BleManager, its scan and its tasks by address. What bleak finds is an argument.
use solar_monitor.Prelude.{
  ◌≡◌, refl, ap, ◌∙◌, sym, String, Bool, true, false, Option, none, some, List, [], ◌∷◌, str_eq,
  str_eq_iff, if◌then◌else◌, Bool-cases, Option-cases, inl, inr,
}
use solar_monitor.Prelude.Dict.{lookup, insert, lookup-insert}
use solar_monitor.Prelude.Int.{pos}
use solar_monitor.Prelude.Words.{lower_text, truthy}
use solar_monitor.Numbers.{Num}
use solar_monitor.Monitor.{Scan, Call, register, set_offline, expect, set_trusted}

-- A device that the scanner gives: its address and its name, if it has one.
abbrev pub Advert : Type 0
Advert = String × Option String

-- d.name or d.address
abbrev or_address : String → Option String → String
or_address address none = address
or_address address (some name) = name

unfoldable pub name_of : Advert → String
name_of (address, name) = or_address address (truthy name)

unfoldable pub found_onto : Scan → List Advert → Scan
found_onto found [] = found
found_onto found (d ∷ devices) = found_onto (insert (lower_text d.0) (name_of d) found) devices

-- discover
unfoldable pub discover : List Advert → Scan
discover devices = found_onto [] devices

abbrev pub or_else {ℓ} : {A : Type ℓ} → Option A → Option A → Option A
or_else none b = b
or_else (some a) b = some a

-- The name of the last device with such an address, in whatever case.
unfoldable pub last_named : String → List Advert → Option String
last_named mac [] = none
last_named mac (d ∷ devices) =
    or_else (last_named mac devices)
      (if str_eq (lower_text d.0) mac then some (name_of d) else none)

lookup-found_onto :
    (mac : String) (found : Scan) (devices : List Advert)
    → lookup mac (found_onto found devices) ≡ or_else (last_named mac devices) (lookup mac found)
unfolding found_onto last_named
lookup-found_onto mac found [] = refl
lookup-found_onto mac found (d ∷ devices) =
    lookup-found_onto mac (insert (lower_text d.0) (name_of d) found) devices
    ∙ ap (or_else (last_named mac devices)) (lookup-insert (lower_text d.0) mac (name_of d) found)
    ∙ found_later (last_named mac devices) (str_eq (lower_text d.0) mac) (name_of d)
        (lookup mac found)
  where
    found_later :
        (later : Option String) (same : Bool) (name : String) (old : Option String)
        → or_else later (if same then some name else old)
          ≡ or_else (or_else later (if same then some name else none)) old
    found_later none true name old = refl
    found_later none false name old = refl
    found_later (some l) same name old = refl

-- A scan finds an address exactly if some device has it, whatever the case of its letters, and under
-- the name of the last such device, or that one's address if it has no name.
pub discover-last :
    (mac : String) (devices : List Advert) → lookup mac (discover devices) ≡ last_named mac devices
unfolding discover
discover-last mac devices = lookup-found_onto mac [] devices ∙ nothing_else (last_named mac devices)
  where
    nothing_else : (o : Option String) → or_else o (lookup mac []) ≡ o
    nothing_else none = unfold lookup in refl
    nothing_else (some name) = refl

-- The tasks by address, and the device of each, here by its section.
abbrev pub Tasks : Type 0
Tasks = List (String × String)

-- register: an address that has a task keeps it.
abbrev pub add_task : Option String → String → String → Tasks → Tasks
add_task none mac section tasks = insert mac section tasks
add_task (some _) mac section tasks = tasks

unfoldable pub register_device : String → String → Tasks → Tasks
register_device mac section tasks = add_task (lookup mac tasks) mac section tasks

-- the calls of the manager among those of main
unfoldable pub run_calls : List Call → Tasks → Tasks
run_calls [] tasks = tasks
run_calls (register section mac ∷ calls) tasks = run_calls calls (register_device mac section tasks)
run_calls (_ ∷ calls) tasks = run_calls calls tasks

-- The section that is registered first with an address.
unfoldable pub first_with : String → List Call → Option String
first_with mac [] = none
first_with mac (register section m ∷ calls) =
    let later = first_with mac calls in if str_eq m mac then some section else later
first_with mac (_ ∷ calls) = first_with mac calls

module _ {ℓ} {A : Type ℓ} where
  or_else-none : (a : Option A) → or_else a none ≡ a
  or_else-none none = refl
  or_else-none (some x) = refl

  or_else_assoc : (a b c : Option A) → or_else (or_else a b) c ≡ or_else a (or_else b c)
  or_else_assoc none b c = refl
  or_else_assoc (some x) b c = refl

  or_else-if :
      (test : Bool) (x : A) (later : Option A)
      → or_else (if test then some x else none) later ≡ (if test then some x else later)
  or_else-if true x later = refl
  or_else-if false x later = refl

lookup-register_device :
    (mac section m : String) (tasks : Tasks)
    → lookup mac (register_device m section tasks)
      ≡ or_else (lookup mac tasks) (if str_eq m mac then some section else none)
unfolding register_device
lookup-register_device mac section m tasks = elim (Option-cases (lookup m tasks)) [
  | inl e ↦
      ap (λ known. lookup mac (add_task known m section tasks)) e
      ∙ lookup-insert m mac section tasks
      ∙ elim (Bool-cases (str_eq m mac)) [
        | inl p ↦
            let free : lookup mac tasks ≡ none =
              ap (λ k. lookup k tasks) (sym ((str_eq_iff m mac).0 p)) ∙ e in
            rw (p, free) refl
        | inr p ↦ rw p (sym (or_else-none (lookup mac tasks)))
      ]
  | inr (s, e) ↦
      ap (λ known. lookup mac (add_task known m section tasks)) e
      ∙ elim (Bool-cases (str_eq m mac)) [
        | inl p ↦
            let taken : lookup mac tasks ≡ some s =
              ap (λ k. lookup k tasks) (sym ((str_eq_iff m mac).0 p)) ∙ e in
            rw (p, taken) refl
        | inr p ↦ rw p (sym (or_else-none (lookup mac tasks)))
      ]
]

-- Each address has one task at most, that of the section which is registered first with it.
pub run_calls-first :
    (mac : String) (calls : List Call) (tasks : Tasks)
    → lookup mac (run_calls calls tasks) ≡ or_else (lookup mac tasks) (first_with mac calls)
unfolding run_calls first_with
run_calls-first mac [] tasks = sym (or_else-none (lookup mac tasks))
run_calls-first mac (register section m ∷ calls) tasks =
    let new : Option String = if str_eq m mac then some section else none in
    run_calls-first mac calls (register_device m section tasks)
    ∙ ap (λ o. or_else o (first_with mac calls)) (lookup-register_device mac section m tasks)
    ∙ or_else_assoc (lookup mac tasks) new (first_with mac calls)
    ∙ ap (or_else (lookup mac tasks)) (or_else-if (str_eq m mac) section (first_with mac calls))
run_calls-first mac (set_offline s ∷ calls) tasks = run_calls-first mac calls tasks
run_calls-first mac (expect s ∷ calls) tasks = run_calls-first mac calls tasks
run_calls-first mac (set_trusted m t ∷ calls) tasks = run_calls-first mac calls tasks

-- _stop_aware_sleep: how long it waits, by when the stop is requested, if it is
abbrev pub until {ℓ} : {N : Type ℓ} ⦃n : Num N⦄ → N → Option N → N
until delay none = delay
until ⦃n⦄ delay (some stop) = if n.lt stop delay then stop else delay

unfoldable pub stop_aware_sleep {ℓ} : {N : Type ℓ} ⦃n : Num N⦄ → N → Option N → N
stop_aware_sleep ⦃n⦄ delay stop =
    if n.le delay (n.of_int (pos 0)) then n.of_int (pos 0) else until delay stop
