-- ===== src/Prelude/Bytes.antt =====
-- Byte strings as lists of numbers: `All`, Python's slices, and `int.from_bytes`.
use mathlib.Core.List.{reverse-cons}
use native.Mathlib.Nat.{pow-suc}
use solar_monitor.Prelude.{
  ℕ, suc, ◌+◌, ◌-◌, ◌*◌, ◌^◌, ◌<◌, ◌≡◌, refl, List, [], ◌∷◌, ◌++◌, length, take, drop, reverse,
  arith, min, drop-append_length, take-append_length,
}
use solar_monitor.Prelude.Int.{ℤ, pos, negsuc}

abbrev pub All {ℓ κ} : {A : Type ℓ} → (A → Type κ) → List A → Type κ
All P [] = Unit
All P (x ∷ xs) = P x × All P xs

pub All-append {ℓ κ} :
    {A : Type ℓ} (P : A → Type κ) (xs ys : List A) → All P xs → All P ys → All P (xs ++ ys)
All-append P [] ys hx hy = hy
All-append P (x ∷ xs) ys hx hy = (hx.0, All-append P xs ys hx.1 hy)

pub All-reverse {ℓ κ} : {A : Type ℓ} (P : A → Type κ) (xs : List A) → All P xs → All P (reverse xs)
All-reverse P [] h = tt
All-reverse P (x ∷ xs) h =
    rw (reverse-cons x xs) (All-append P (reverse xs) (x ∷ []) (All-reverse P xs h.1) (h.0, tt))

abbrev pub IsByte : ℕ → Type 0
IsByte b = b < 256

-- int.from_bytes(bs, "little")
unfoldable pub le_value : List ℕ → ℕ
le_value [] = 0
le_value (b ∷ bs) = b + 256 * le_value bs

-- int.from_bytes(bs, "big"), behind the digits read so far
unfoldable pub be_from : ℕ → List ℕ → ℕ
be_from acc [] = acc
be_from acc (b ∷ bs) = be_from (acc * 256 + b) bs

pub le_value-lt : (bs : List ℕ) → All IsByte bs → le_value bs < 256 ^ length bs
unfolding le_value
le_value-lt [] h = omega arith
le_value-lt (b ∷ bs) h = rw (pow-suc 256 (length bs)) (omega (arith, le_value-lt bs h.1, h.0))

pub be_from-append :
    (acc : ℕ) (xs : List ℕ) (b : ℕ) → be_from acc (xs ++ b ∷ []) ≡ be_from acc xs * 256 + b
unfolding be_from
be_from-append acc [] b = refl
be_from-append acc (x ∷ xs) b = be_from-append (acc * 256 + x) xs b

pub be_from-reverse : (bs : List ℕ) → be_from 0 (reverse bs) ≡ le_value bs
unfolding le_value
be_from-reverse [] = unfold be_from in refl
be_from-reverse (b ∷ bs) =
    rw (reverse-cons b bs, be_from-append 0 (reverse bs) b, be_from-reverse bs) (omega arith)

-- Where a slice bound stands in a sequence of `size` items: a negative one counts from the end.
abbrev pub slice_bound : ℕ → ℤ → ℕ
slice_bound size (pos n) = min n size
slice_bound size (negsuc n) = size - suc n

-- xs[start:stop]
unfoldable pub slice {ℓ} : {A : Type ℓ} → List A → ℤ → ℤ → List A
slice xs start stop =
    let from = slice_bound (length xs) start in
    take (slice_bound (length xs) stop - from) (drop from xs)

pub slice-middle {ℓ} :
    {A : Type ℓ} (pre mid post : List A) (start stop : ℕ)
    → start ≡ length pre
    → stop ≡ length pre + length mid
    → length (pre ++ (mid ++ post)) ≡ length pre + (length mid + length post)
    → slice (pre ++ (mid ++ post)) (pos start) (pos stop) ≡ mid
unfolding slice
slice-middle pre mid post start stop es ee size =
    let from : min start (length (pre ++ (mid ++ post))) ≡ length pre = omega arith in
    let count : min stop (length (pre ++ (mid ++ post))) - length pre ≡ length mid = omega arith in
    rw (from, count, drop-append_length pre (mid ++ post)) (take-append_length mid post)
