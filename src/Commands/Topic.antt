-- ===== src/Commands/Topic.antt =====
-- datalogger.py: the topics that the logger subscribes, and what comes on them.
use solar_monitor.Prelude.{
  ◌+◌, ◌-◌, ◌<◌, ◌≡◌, ◌≢◌, refl, ◌∙◌, String, false, List, [], ◌∷◌, ◌++◌, length, length-append,
  get_or-append, ltb, arith, ap,
}
use solar_monitor.Prelude.Text.{split, split-ne-nil, Lacks}
use solar_monitor.DataLogger.Topics.{
  with_slash, slash, command_topic, with_slash-stem, split-command_topic,
}
use solar_monitor.Commands.{Bridge, queue_command, on_message, receive}

length-pos {ℓ} : {A : Type ℓ} (xs : List A) → xs ≢ [] → 0 < length xs
length-pos [] h = absurd (h refl)
length-pos (x ∷ xs) h = omega arith

on_message-ending :
    (front : List String) (device var word payload : String) (b : Bridge)
    → front ≢ []
    → on_message (front ++ device ∷ var ∷ word ∷ []) payload b
      ≡ queue_command device (var, payload) b
unfolding on_message
on_message-ending front device var word payload b ne =
    let ending = device ∷ var ∷ word ∷ [] in
    let n = length (front ++ ending) in
    let many : n ≡ length front + 3 = length-append front ending in
    let long : ltb n 4 ≡ false = ground (arith, many, length-pos front ne) in
    let third : n - 3 ≡ length front + 0 = omega (arith, many) in
    let second : n - 2 ≡ length front + 1 = omega (arith, many) in
    rw (long, third, second, get_or-append front ending 0 "", get_or-append front ending 1 "") refl

-- A message on the topic of a variable that the logger subscribes queues its payload for that
-- variable of that device, whatever the prefix, if neither name has a slash in it.
pub receive-command_topic :
    (prefix device var payload : String) (b : Bridge)
    → Lacks slash device
    → Lacks slash var
    → receive (command_topic (with_slash prefix) device var) payload b
      ≡ queue_command device (var, payload) b
unfolding receive
receive-command_topic prefix device var payload b hd hv =
    let stem = (with_slash-stem prefix).0 in
    ap (λ parts. on_message parts payload b) (split-command_topic prefix device var hd hv)
    ∙ on_message-ending (split slash stem) device var "set" payload b (split-ne-nil slash stem)
