-- ===== src/VeDirect/Records.antt =====
-- plugins/VEDirect: the records of a bulk transfer.
use solar_monitor.Prelude.{
  ℕ, zero, suc, ◌*◌, ◌<◌, ◌≡◌, refl, List, [], ◌∷◌, ◌++◌, length, take, drop, arith, ltb, leb, ◌==◌,
  if◌then◌else◌, append_assoc, length-append, take-append_length, drop-append_length, true, false,
}
use solar_monitor.Prelude.Bytes.{All}
use solar_monitor.Numbers.{Real, real_num}
use solar_monitor.VeDirect.{Device, set_values, set_records, set_bulk_values, word_at}

abbrev pub concat : List (List ℕ) → List ℕ
concat [] = []
concat (xs ∷ xss) = xs ++ concat xss

abbrev pub IsRecord : List ℕ → Type 0
IsRecord value = length value ≡ 8

length-concat :
    (values : List (List ℕ)) → All IsRecord values → length (concat values) ≡ 8 * length values
length-concat [] h = refl
length-concat (value ∷ values) h =
    omega (arith, length-append value (concat values), length-concat values h.1, h.0)

module _ {ℓ} {N : Type ℓ} ⦃r : Real N⦄ where
  abbrev pub set_each : List (List ℕ) → Device N → Device N
  set_each [] d = d
  set_each (value ∷ values) d = set_each values (set_values value d)

  -- The loop handles every whole record of the buffer, in order, and leaves a rest of less than
  -- eight bytes out; there are rounds enough.
  set_records-each :
      (values : List (List ℕ)) (rest : List ℕ) (rounds : ℕ) (d : Device N)
      → All IsRecord values
      → length rest < 8
      → length values < rounds
      → set_records rounds (concat values ++ rest) d ≡ set_each values d
  unfolding set_records
  set_records-each values rest zero d h k m = absurd (omega (arith, m))
  set_records-each [] rest (suc rounds) d h k m =
      let test : leb 8 (length rest) ≡ false = ground arith in rw test
  set_records-each (value ∷ values) rest (suc rounds) d h k m =
      let buffer = concat values ++ rest in
      let test : leb 8 (length (value ++ buffer)) ≡ true =
        ground (arith, length-append value buffer, h.0) in
      let first : take 8 (value ++ buffer) ≡ value = rw (← h.0) (take-append_length value buffer) in
      let left : drop 8 (value ++ buffer) ≡ buffer = rw (← h.0) (drop-append_length value buffer) in
      rw (append_assoc value (concat values) rest, test, first, left)
        (set_records-each values rest rounds (set_values value d) h.1 k (omega (arith, m)))

  -- When a packet of the bulk characteristic brings the buffer over 20 bytes, where a packet that
  -- starts with 776 opens a new buffer, every whole record of the buffer is stored, in order, a
  -- rest of less than eight bytes is dropped, and the buffer is empty again.
  pub set_bulk_values-each :
      (values : List (List ℕ)) (rest packet char_buffer : List ℕ) (d : Device N)
      → All IsRecord values
      → length rest < 8
      → (if word_at packet 0 == 776 then packet else char_buffer ++ packet) ≡ concat values ++ rest
      → 20 < length (concat values ++ rest)
      → set_bulk_values packet (char_buffer, d) ≡ ([], set_each values d)
  unfolding set_bulk_values
  set_bulk_values-each values rest packet char_buffer d h k buffer long =
      let total = length (concat values ++ rest) in
      let test : ltb 20 total ≡ true = ground (arith, long) in
      let enough : length values < total =
        omega (arith, length-append (concat values) rest, length-concat values h, long) in
      rw (buffer, test, set_records-each values rest total d h k enough)
