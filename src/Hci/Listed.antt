-- ===== src/Hci/Listed.antt =====
-- hci.py: connection_handle finds a handle where there is one, and only there.
use solar_monitor.Prelude.{
  ℕ, ◌≡◌, ◌≢◌, refl, ap, sym, subst, ◌∙◌, Option, none, some, List, [], ◌∷◌, ◌++◌, ◌==◌, ==_iff,
  arith, if◌then◌else◌,
}
use solar_monitor.Prelude.Bytes.{All}
use solar_monitor.Hci.{
  is_digit, fold, strip_front, handle_word, some_digits, digits_behind, handle_at, or_later,
  find_handle, handle_behind, device_at, search_device,
}
use solar_monitor.Hci.Interval.{Holds, Stops, span-append}
use solar_monitor.Hci.Handle.{SameLetters, OnLine, IsListed, search_device_sound}

strip_front_complete :
    (ps front rest : List ℕ) → SameLetters front ps → strip_front ps (front ++ rest) ≡ some rest
unfolding strip_front
strip_front_complete [] [] rest h = refl
strip_front_complete [] (c ∷ front) rest h = absurd (cc)
strip_front_complete (p ∷ ps) [] rest h = absurd (cc)
strip_front_complete (p ∷ ps) (c ∷ front) rest h =
    let first : fold p ≡ fold c = cc in
    rw ((==_iff (fold p) (fold c)).1 first) (strip_front_complete ps front rest (cc))

some_digits-run : (digits rest : List ℕ) → digits ≢ [] → some_digits (digits, rest) ≡ some digits
some_digits-run [] rest ne = absurd (ne refl)
some_digits-run (d ∷ digits) rest ne = refl

or_later-ne-none : (first later : Option (List ℕ)) → later ≢ none → or_later first later ≢ none
or_later-ne-none none later h = h
or_later-ne-none (some d) later h = λ e. cc

handle_at_complete :
    (word digits rest : List ℕ)
    → SameLetters word handle_word
    → Holds is_digit digits
    → digits ≢ []
    → Stops is_digit rest
    → handle_at (word ++ (digits ++ rest)) ≡ some digits
unfolding handle_at
handle_at_complete word digits rest same h ne stops =
    ap digits_behind (strip_front_complete handle_word word (digits ++ rest) same)
    ∙ ap some_digits (span-append is_digit digits rest h stops)
    ∙ some_digits-run digits rest ne

find_handle-here :
    (cs : List ℕ) {digits : List ℕ} → handle_at cs ≡ some digits → find_handle cs ≢ none
unfolding find_handle
find_handle-here [] h = absurd (unfold handle_at strip_front in cc)
find_handle-here (c ∷ cs) {digits} h =
    subst (λ first. or_later first (if c == b'\n' then none else find_handle cs) ≢ none) (sym h)
      (λ e. cc)

same_line :
    (c : ℕ) (later : Option (List ℕ))
    → c ≢ b'\n'
    → later ≢ none
    → (if c == b'\n' then none else later) ≢ none
same_line c later ne h e = h (ground arith)

find_handle_complete :
    (between : List ℕ) (cs : List ℕ)
    → All (λ c. c ≢ b'\n') between
    → find_handle cs ≢ none
    → find_handle (between ++ cs) ≢ none
unfolding find_handle
find_handle_complete [] cs h ne = ne
find_handle_complete (c ∷ between) cs (hc, h) ne =
    or_later-ne-none (handle_at (c ∷ (between ++ cs)))
      (if c == b'\n' then none else find_handle (between ++ cs))
      (same_line c (find_handle (between ++ cs)) hc (find_handle_complete between cs h ne))

OnLine-find_handle : (cs : List ℕ) {digits : List ℕ} → OnLine cs digits → find_handle cs ≢ none
OnLine-find_handle cs {digits} on =
    let here = find_handle-here (on.word ++ (digits ++ on.rest)) (
      handle_at_complete on.word digits on.rest on.is_word on.are_digits on.some_digit
        on.all_digits) in
    subst (λ xs. find_handle xs ≢ none) (sym on.whole)
      (find_handle_complete on.between (on.word ++ (digits ++ on.rest)) on.one_line here)

device_at_complete :
    (mac address behind : List ℕ) {digits : List ℕ}
    → SameLetters address mac
    → OnLine behind digits
    → device_at mac (address ++ behind) ≢ none
unfolding device_at
device_at_complete mac address behind same on =
    subst (λ front. handle_behind front ≢ none) (sym (strip_front_complete mac address behind same))
      (OnLine-find_handle behind on)

or_later-first : (first later : Option (List ℕ)) → first ≢ none → or_later first later ≢ none
or_later-first none later h = absurd (h refl)
or_later-first (some d) later h = λ e. cc

search_device-here : (mac cs : List ℕ) → device_at mac cs ≢ none → search_device mac cs ≢ none
unfolding search_device
search_device-here mac [] h = h
search_device-here mac (c ∷ cs) h = or_later-first (device_at mac (c ∷ cs)) (search_device mac cs) h

search_device_complete :
    (mac before address behind : List ℕ) {digits : List ℕ}
    → SameLetters address mac
    → OnLine behind digits
    → search_device mac (before ++ (address ++ behind)) ≢ none
unfolding search_device
search_device_complete mac [] address behind same on =
    search_device-here mac (address ++ behind) (device_at_complete mac address behind same on)
search_device_complete mac (c ∷ before) address behind same on =
    or_later-ne-none (device_at mac (c ∷ (before ++ (address ++ behind))))
      (search_device mac (before ++ (address ++ behind)))
      (search_device_complete mac before address behind same on)

-- What the search gives stands in the listing behind the address, on its line, as all digits behind
-- the word `handle`; and where there is such an address with such a handle, something is found.
pub search_device-exactly :
    (mac cs : List ℕ)
    → ((digits : List ℕ) → search_device mac cs ≡ some digits → IsListed mac cs digits)
      × ((digits : List ℕ) → IsListed mac cs digits → search_device mac cs ≢ none)
search_device-exactly mac cs = (
  (λ digits h. search_device_sound mac cs h),
  (λ digits l.
      let (before, address, behind, at, same, on) = l in
      subst (λ xs. search_device mac xs ≢ none) (sym at)
        (search_device_complete mac before address behind same on)),
)
