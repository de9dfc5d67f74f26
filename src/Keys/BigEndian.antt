-- ===== src/Keys/BigEndian.antt =====
-- Numbers as bytes: reading back, length, and order.
use tea_elephant_memory.Prelude.{
  ℕ, zero, suc, ◌+◌, ◌*◌, ◌/◌, ◌%◌, ◌<◌, ◌≡◌, refl, sym, ◌∙◌, ltb, ◌==◌, ◌&&◌, ◌||◌, [], ◌∷◌, ◌++◌,
  length, length-append, arith, Bytes, bytes_eq, bytes_lt,
}
use tea_elephant_memory.Keys.{big_endian, number_from}

pub big_endian-length : (width n : ℕ) → length (big_endian width n) ≡ width
unfolding big_endian
big_endian-length zero n = refl
big_endian-length (suc width) n = omega (
  arith,
  length-append (big_endian width (n / 256)) (n % 256 ∷ []),
  big_endian-length width (n / 256),
)

number_from-append :
    (m : ℕ) (bs : Bytes) (b : ℕ) → number_from m (bs ++ b ∷ []) ≡ number_from m bs * 256 + b
unfolding number_from
number_from-append m [] b = refl
number_from-append m (c ∷ bs) b = number_from-append (m * 256 + c) bs b

-- 256 to the power of the width.
abbrev pub bound : ℕ → ℕ
bound zero = 1
bound (suc width) = 256 * bound width

pub number_from-big_endian :
    (width n : ℕ) → n < bound width → number_from 0 (big_endian width n) ≡ n
unfolding number_from big_endian
number_from-big_endian zero n h = omega arith
number_from-big_endian (suc width) n h =
    rw
      (
        number_from-append 0 (big_endian width (n / 256)) (n % 256),
        number_from-big_endian width (n / 256) (omega arith),
      )
      (omega arith)

pub bytes_lt-append :
    (xs ys as_ bs : Bytes)
    → length xs ≡ length ys
    → bytes_lt (xs ++ as_) (ys ++ bs) ≡ (bytes_lt xs ys || (bytes_eq xs ys && bytes_lt as_ bs))
unfolding bytes_lt bytes_eq
bytes_lt-append [] [] as_ bs h = refl
bytes_lt-append [] (y ∷ ys) as_ bs h = absurd (omega arith)
bytes_lt-append (x ∷ xs) [] as_ bs h = absurd (omega arith)
bytes_lt-append (x ∷ xs) (y ∷ ys) as_ bs h = ground (arith, bytes_lt-append xs ys as_ bs)

bytes_eq-append :
    (xs ys : Bytes) (a b : ℕ)
    → length xs ≡ length ys
    → bytes_eq (xs ++ a ∷ []) (ys ++ b ∷ []) ≡ (bytes_eq xs ys && a == b)
unfolding bytes_eq
bytes_eq-append [] [] a b h = ground arith
bytes_eq-append [] (y ∷ ys) a b h = absurd (omega arith)
bytes_eq-append (x ∷ xs) [] a b h = absurd (omega arith)
bytes_eq-append (x ∷ xs) (y ∷ ys) a b h = ground (arith, bytes_eq-append xs ys a b)

-- In one width the order of bytes is the order of numbers.
pub bytes_eq-big_endian :
    (width m n : ℕ)
    → m < bound width
    → n < bound width
    → bytes_eq (big_endian width m) (big_endian width n) ≡ (m == n)
unfolding big_endian bytes_eq
bytes_eq-big_endian zero m n hm hn = ground arith
bytes_eq-big_endian (suc width) m n hm hn =
    rw
      (
        bytes_eq-append (big_endian width (m / 256)) (big_endian width (n / 256)) (m % 256)
            (n % 256) (big_endian-length width _ ∙ sym (big_endian-length width _)),
        bytes_eq-big_endian width (m / 256) (n / 256) (omega arith) (omega arith),
      )
      (ground arith)

pub bytes_lt-big_endian :
    (width m n : ℕ)
    → m < bound width
    → n < bound width
    → bytes_lt (big_endian width m) (big_endian width n) ≡ ltb m n
unfolding big_endian bytes_lt
bytes_lt-big_endian zero m n hm hn = ground arith
bytes_lt-big_endian (suc width) m n hm hn =
    rw
      (
        bytes_lt-append (big_endian width (m / 256)) (big_endian width (n / 256)) (m % 256 ∷ [])
            (n % 256 ∷ []) (big_endian-length width _ ∙ sym (big_endian-length width _)),
        bytes_lt-big_endian width (m / 256) (n / 256) (omega arith) (omega arith),
        bytes_eq-big_endian width (m / 256) (n / 256) (omega arith) (omega arith),
      )
      (ground arith)
