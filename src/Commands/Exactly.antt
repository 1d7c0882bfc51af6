-- ===== src/Commands/Exactly.antt =====
-- Commands from the broker: what has come for a device, and where it is.
use solar_monitor.Prelude.{
  ◌-◌, ◌≡◌, refl, ap, ◌∙◌, sym, String, true, false, List, [], ◌∷◌, ◌++◌, map, length, get_or, ltb,
  if◌then◌else◌, str_eq, str_eq_iff, Bool-cases, inl, inr, ◌⊎◌, append_assoc, append-nil,
}
use solar_monitor.Prelude.Dict.{lookup, lookup-insert, str_eq_refl}
use solar_monitor.Prelude.Bytes.{All}
use solar_monitor.Commands.{
  Command, Bridge, queued, queue_command, on_message, submit_all, drain_device, bridge_round, Step,
  message, turn, step, run,
}

-- the commands of one device in a list of submitted ones
unfoldable pub of_device : String → List (String × Command) → List Command
of_device name [] = []
of_device name ((n, c) ∷ cs) = if str_eq n name then c ∷ of_device name cs else of_device name cs

-- the command that a message brings for a device, if any
abbrev pub arrived : String → List String → String → List Command
arrived name parts payload =
    if ltb (length parts) 4
    then []
    else if str_eq (get_or parts (length parts - 3) "") name
    then (get_or parts (length parts - 2) "", payload) ∷ []
    else []

-- the commands that a sequence of steps brings for a device
unfoldable pub received : String → List Step → List Command
received name [] = []
received name (turn n ∷ steps) = received name steps
received name (message parts payload ∷ steps) = arrived name parts payload ++ received name steps

-- Everything that has come for a device: what was submitted, and what is queued.
abbrev pub history : String → Bridge → List Command
history name b = of_device name b.submitted ++ queued (lookup name b.sets)

of_device-append :
    (name : String) (xs ys : List (String × Command))
    → of_device name (xs ++ ys) ≡ of_device name xs ++ of_device name ys
unfolding of_device
of_device-append name [] ys = refl
of_device-append name ((n, c) ∷ xs) ys = elim (Bool-cases (str_eq n name)) [
  | inl p ↦ rw (p, of_device-append name xs ys)
  | inr p ↦ rw (p, of_device-append name xs ys)
]

of_device-map :
    (n name : String) (cs : List Command)
    → of_device name (map (λ c. (n, c)) cs) ≡ (if str_eq n name then cs else [])
unfolding of_device
of_device-map n name cs = elim (Bool-cases (str_eq n name)) [
  | inl p ↦ rw p (same cs p)
  | inr p ↦ rw p (other cs p)
]
  where
    -- for the device itself
    same : (cs : List Command) → str_eq n name ≡ true → of_device name (map (λ c. (n, c)) cs) ≡ cs
    same [] p = refl
    same (c ∷ cs) p = rw (p, same cs p)

    other : (cs : List Command) → str_eq n name ≡ false → of_device name (map (λ c. (n, c)) cs) ≡ []
    other [] p = refl
    other (c ∷ cs) p = rw (p, other cs p)

history-queue_command :
    (name device : String) (c : Command) (b : Bridge)
    → history name (queue_command device c b)
      ≡ history name b ++ (if str_eq device name then c ∷ [] else [])
unfolding queue_command
history-queue_command name device c b = elim (Bool-cases (str_eq device name)) [
  | inl p ↦
      let e : queued (lookup device b.sets) ≡ queued (lookup name b.sets) =
        ap (λ k. queued (lookup k b.sets)) ((str_eq_iff device name).0 p) in
      rw (lookup-insert device name (queued (lookup device b.sets) ++ (c ∷ [])) b.sets, p, e)
        (sym (append_assoc (of_device name b.submitted) (queued (lookup name b.sets)) (c ∷ [])))
  | inr p ↦
      rw (lookup-insert device name (queued (lookup device b.sets) ++ (c ∷ [])) b.sets, p)
        (sym (append-nil (history name b)))
]

history-submit_all :
    (name n : String) (cs : List Command) (b : Bridge)
    → queued (lookup n b.sets) ≡ cs
    → history name (submit_all n cs b) ≡ history name b
unfolding submit_all
history-submit_all name n [] b h = refl
history-submit_all name n (c ∷ cs) b h = elim (Bool-cases (str_eq n name)) [
  | inl p ↦
      let e : queued (lookup name b.sets) ≡ c ∷ cs =
        ap (λ k. queued (lookup k b.sets)) (sym ((str_eq_iff n name).0 p)) ∙ h in
      rw
        (
          of_device-append name b.submitted (map (λ c. (n, c)) (c ∷ cs)),
          of_device-map n name (c ∷ cs),
          lookup-insert n name [] b.sets,
          p,
          e,
        )
        (append-nil (of_device name b.submitted ++ (c ∷ cs)))
  | inr p ↦ rw (
    of_device-append name b.submitted (map (λ c. (n, c)) (c ∷ cs)),
    of_device-map n name (c ∷ cs),
    lookup-insert n name [] b.sets,
    p,
    append-nil (of_device name b.submitted),
  )
]

history-drain_device :
    (name n : String) (b : Bridge) → history name (drain_device n b) ≡ history name b
unfolding drain_device
history-drain_device name n b = history-submit_all name n (queued (lookup n b.sets)) b refl

history-on_message :
    (name : String) (parts : List String) (payload : String) (b : Bridge)
    → history name (on_message parts payload b) ≡ history name b ++ arrived name parts payload
unfolding on_message
history-on_message name parts payload b = elim (Bool-cases (ltb (length parts) 4)) [
  | inl p ↦ rw p (sym (append-nil (history name b)))
  | inr p ↦ rw p (
      history-queue_command name (get_or parts (length parts - 3) "")
        (get_or parts (length parts - 2) "", payload) b)
]

-- Over every sequence of messages and turns, in any order, what was submitted to a device followed
-- by what is queued for it is what was there at first followed by the commands that came for it, in
-- their order: none is lost, doubled, reordered or given to another device.
pub history-run :
    (steps : List Step) (name : String) (b : Bridge)
    → history name (run steps b) ≡ history name b ++ received name steps
unfolding run received step
history-run [] name b = sym (append-nil (history name b))
history-run (turn n ∷ steps) name b =
    history-run steps name (drain_device n b)
    ∙ ap (λ h. h ++ received name steps) (history-drain_device name n b)
history-run (message parts payload ∷ steps) name b =
    history-run steps name (on_message parts payload b)
    ∙ (ap (λ h. h ++ received name steps) (history-on_message name parts payload b)
        ∙ append_assoc (history name b) (arrived name parts payload) (received name steps))

queue_after : String → Bridge → List Command
queue_after name b = queued (lookup name b.sets)

submit_all-empties :
    (name n : String) (cs : List Command) (b : Bridge)
    → queued (lookup n b.sets) ≡ cs
    → (str_eq n name ≡ true) ⊎ (queue_after name b ≡ [])
    → queue_after name (submit_all n cs b) ≡ []
unfolding submit_all queue_after
submit_all-empties name n [] b h (inl same) =
    ap (λ k. queued (lookup k b.sets)) (sym ((str_eq_iff n name).0 same)) ∙ h
submit_all-empties name n [] b h (inr empty) = empty
submit_all-empties name n (c ∷ cs) b h (inl same) = rw (lookup-insert n name [] b.sets, same)
submit_all-empties name n (c ∷ cs) b h (inr empty) = elim (Bool-cases (str_eq n name)) [
  | inl p ↦ rw (lookup-insert n name [] b.sets, p)
  | inr p ↦ rw (lookup-insert n name [] b.sets, p) empty
]

bridge_round-keeps :
    (names : List String) (name : String) (b : Bridge)
    → queue_after name b ≡ []
    → queue_after name (bridge_round names b) ≡ []
unfolding bridge_round drain_device
bridge_round-keeps [] name b h = h
bridge_round-keeps (n ∷ names) name b h =
    bridge_round-keeps names name (drain_device n b)
      (submit_all-empties name n (queued (lookup n b.sets)) b refl (inr h))

-- A round of the bridge leaves nothing queued for the devices that it goes over.
pub bridge_round-empties :
    (names : List String) (b : Bridge)
    → All (λ name. queued (lookup name (bridge_round names b).sets) ≡ []) names
unfolding queue_after bridge_round drain_device
bridge_round-empties [] b = tt
bridge_round-empties (n ∷ names) b = (
  bridge_round-keeps names n (drain_device n b)
      (submit_all-empties n n (queued (lookup n b.sets)) b refl (inl (str_eq_refl n))),
  bridge_round-empties names (drain_device n b),
)
