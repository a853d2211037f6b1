-- ===== src/Execution/Ids/Decimals.antt =====
-- Printing a number and reading it back.
use lufy.Prelude.{
  ℕ, zero, suc, ◌+◌, ◌*◌, ◌-◌, ◌/◌, ◌%◌, ◌<◌, ◌≡◌, refl, ◌∙◌, true, false, [], ◌∷◌, Text, arith,
  ◌==◌, Bool-cases, is_empty, ap, inl, inr,
}
use lufy.Execution.Ids.{digits, print, read_from, all_digits, isdigit, has_colon}

digits-all_digits :
    (f n : ℕ) (out : Text) → all_digits out ≡ true → all_digits (digits f n out) ≡ true
unfolding digits
digits-all_digits zero n out h = h
digits-all_digits (suc f) n out h =
    ground (arith, digits-all_digits f (n / 10) ((b'0' + n % 10) ∷ out))

digits_not_empty : (f n : ℕ) (c : ℕ) (out : Text) → is_empty (digits f n (c ∷ out)) ≡ false
unfolding digits
digits_not_empty zero n c out = refl
digits_not_empty (suc f) n c out =
    ground (arith, digits_not_empty f (n / 10) (b'0' + n % 10) (c ∷ out))

read_from-digits : (f n : ℕ) (out : Text) → n < f → read_from 0 (digits f n out) ≡ read_from n out
unfolding digits read_from
read_from-digits zero n out h = elim h [ ]
read_from-digits (suc f) n out h = elim (Bool-cases (n / 10 == 0)) [
  | inl last ↦
      let same : 0 * 10 + ((b'0' + n % 10) - b'0') ≡ n = ground arith in
      rw last (ap (λ k. read_from k out) same)
  | inr more ↦
      let same : n / 10 * 10 + ((b'0' + n % 10) - b'0') ≡ n = omega arith in
      rw more (
        read_from-digits f (n / 10) ((b'0' + n % 10) ∷ out) (ground arith)
        ∙ ap (λ k. read_from k out) same)
]

pub read_from-print : (n : ℕ) → read_from 0 (print n) ≡ n
unfolding print read_from
read_from-print n = read_from-digits (suc n) n [] (omega arith)

pub isdigit-print : (n : ℕ) → isdigit (print n) ≡ true
unfolding print digits
isdigit-print n =
    ground (arith, digits-all_digits (suc n) n [], digits_not_empty n (n / 10) (b'0' + n % 10) [])

all_digits-has_colon : (s : Text) → all_digits s ≡ true → has_colon s ≡ false
unfolding has_colon
all_digits-has_colon [] h = refl
all_digits-has_colon (c ∷ s) h = ground (arith, all_digits-has_colon s)

pub has_colon-print : (n : ℕ) → has_colon (print n) ≡ false
has_colon-print n = all_digits-has_colon (print n) (ground (arith, isdigit-print n))

pub print_injective : (m n : ℕ) → print m ≡ print n → m ≡ n
print_injective m n e = cc (read_from-print m, read_from-print n)
