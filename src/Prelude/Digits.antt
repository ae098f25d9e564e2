-- ===== src/Prelude/Digits.antt =====
-- Laws of prefixes and of decimal digits.
use Prim.Native.Nat.{ℕ, zero, suc, ◌+◌, ◌-◌, ◌*◌, ◌/◌, ◌%◌, ◌<◌}
use Prim.Native.Char.{Char, code}
use Prim.Native.String.{String, [], ◌∷◌, ◌++◌}
use Prim.Native.String.append.{nil, cons}
use mathlib.Core.Path.{◌≡◌, refl, ap, ◌∙◌}
use mathlib.Core.Logic.{inl, inr}
use mathlib.Core.Bool.{Bool, true, false}
use mathlib.Core.Option.{some}
use native.Mathlib.Omega.{arith}
use text.Mathlib.TextEquality.{Char-path, eq_iff}
use marketplace_template.Prelude.Tests.{
  ltb, nat_beq, nat_beq_iff, if◌then◌else◌, Bool-cases, ◌==◌, text_eq,
}
use marketplace_template.Prelude.Texts.{
  all_digits, decimal, decimal_from, starts_zero, strip_prefix, digit_text, show_digits, show_nat,
}

pub strip_prefix-some : (p s r : String) → strip_prefix p s ≡ some r → s ≡ p ++ r
unfolding strip_prefix
strip_prefix-some [] s r h = let e = nil r in ground (arith, e)
strip_prefix-some (c ∷ p) [] r h = ground arith
strip_prefix-some (c ∷ p) (d ∷ s) r h =
    let same = Char-path d c in
    let rest = strip_prefix-some p s r in
    let e = cons c p r in ground (arith, nat_beq_iff (code c) (code d), same, rest, e)

pub strip_prefix-append : (p r : String) → strip_prefix p (p ++ r) ≡ some r
unfolding strip_prefix
strip_prefix-append [] r = ap some (nil r)
strip_prefix-append (c ∷ p) r =
    rw (cons c p r, (nat_beq_iff (code c) (code c)).1 refl, strip_prefix-append p r)

pub all_digits-append :
    (s t : String) → all_digits s ≡ true → all_digits t ≡ true → all_digits (s ++ t) ≡ true
unfolding all_digits
all_digits-append [] t h k = rw (nil t, k)
all_digits-append (c ∷ s) t h k =
    let rest = all_digits-append s t in
    let e = ap all_digits (cons c s t) in ground (arith, rest, e)

all_digits-if :
    (b : Bool) (s t : String)
    → all_digits s ≡ true
    → all_digits t ≡ true
    → all_digits (if b then s else t) ≡ true
all_digits-if true s t h k = h
all_digits-if false s t h k = k

all_digits-digit_text : (d : ℕ) → all_digits (digit_text d) ≡ true
unfolding all_digits digit_text
all_digits-digit_text d = all_digits-if (nat_beq d 0) "0" _ refl (
    all_digits-if (nat_beq d 1) "1" _ refl (
      all_digits-if (nat_beq d 2) "2" _ refl (
        all_digits-if (nat_beq d 3) "3" _ refl (
          all_digits-if (nat_beq d 4) "4" _ refl (
            all_digits-if (nat_beq d 5) "5" _ refl (
              all_digits-if (nat_beq d 6) "6" _ refl (
                all_digits-if (nat_beq d 7) "7" _ refl
                  (all_digits-if (nat_beq d 8) "8" "9" refl refl))))))))

all_digits-show_digits : (fuel n : ℕ) → all_digits (show_digits fuel n) ≡ true
unfolding show_digits all_digits
all_digits-show_digits zero n = refl
all_digits-show_digits (suc fuel) n =
    all_digits-if (ltb n 10) (digit_text n) (show_digits fuel (n / 10) ++ digit_text (n % 10))
      (all_digits-digit_text n)
      (all_digits-append (show_digits fuel (n / 10)) (digit_text (n % 10))
        (all_digits-show_digits fuel (n / 10)) (all_digits-digit_text (n % 10)))

pub all_digits-show_nat : (n : ℕ) → all_digits (show_nat n) ≡ true
unfolding show_nat
all_digits-show_nat n = all_digits-show_digits (suc n) n

abbrev is_blank : String → Bool
is_blank [] = true
is_blank (c ∷ s) = false

-- A text that is not empty.
abbrev Written : String → Type 0
Written s = (s == "") ≡ false

Written-if : (b : Bool) (s t : String) → Written s → Written t → Written (if b then s else t)
Written-if true s t h k = h
Written-if false s t h k = k

Written-cons : (c : Char) (s : String) → Written (c ∷ s)
Written-cons c s = elim (Bool-cases ((c ∷ s) == "")) [
  | inr e ↦ e
  | inl e ↦ let b = ap is_blank ((eq_iff (c ∷ s) "").0 e) in ground (arith, b)
]

Written-append : (s t : String) → Written t → Written (s ++ t)
Written-append [] t h = rw (nil t, h)
Written-append (c ∷ s) t h = rw (cons c s t) (Written-cons c (s ++ t))

Written-digit_text : (d : ℕ) → Written (digit_text d)
unfolding digit_text
Written-digit_text d = Written-if (nat_beq d 0) "0" _ refl (
    Written-if (nat_beq d 1) "1" _ refl (
      Written-if (nat_beq d 2) "2" _ refl (
        Written-if (nat_beq d 3) "3" _ refl (
          Written-if (nat_beq d 4) "4" _ refl (
            Written-if (nat_beq d 5) "5" _ refl (
              Written-if (nat_beq d 6) "6" _ refl (
                Written-if (nat_beq d 7) "7" _ refl
                  (Written-if (nat_beq d 8) "8" "9" refl refl))))))))

show_digits-Written : (fuel n : ℕ) → Written (show_digits (suc fuel) n)
unfolding show_digits
show_digits-Written fuel n =
    Written-if (ltb n 10) (digit_text n) (show_digits fuel (n / 10) ++ digit_text (n % 10))
      (Written-digit_text n)
      (Written-append (show_digits fuel (n / 10)) (digit_text (n % 10))
        (Written-digit_text (n % 10)))

pub show_nat-Written : (n : ℕ) → (show_nat n == "") ≡ false
unfolding show_nat
show_nat-Written n = show_digits-Written n n

starts_zero-append : (s t : String) → Written s → starts_zero (s ++ t) ≡ starts_zero s
unfolding starts_zero
starts_zero-append [] t h = absurd (let e = (eq_iff "" "").1 refl in ground (arith, e))
starts_zero-append (c ∷ s) t h = ap starts_zero (cons c s t)

starts_zero-if :
    (b : Bool) (s t : String)
    → (b ≡ true → starts_zero s ≡ false)
    → (b ≡ false → starts_zero t ≡ false)
    → starts_zero (if b then s else t) ≡ false
starts_zero-if true s t h k = h refl
starts_zero-if false s t h k = k refl

starts_zero-digit_text : (d : ℕ) → 0 < d → starts_zero (digit_text d) ≡ false
unfolding starts_zero digit_text
starts_zero-digit_text d h =
    starts_zero-if (nat_beq d 0) "0" _ (λ e. absurd (ground arith))
      (λ n0.
        starts_zero-if (nat_beq d 1) "1" _ (λ e. refl)
          (λ n1.
            starts_zero-if (nat_beq d 2) "2" _ (λ e. refl)
              (λ n2.
                starts_zero-if (nat_beq d 3) "3" _ (λ e. refl)
                  (λ n3.
                    starts_zero-if (nat_beq d 4) "4" _ (λ e. refl)
                      (λ n4.
                        starts_zero-if (nat_beq d 5) "5" _ (λ e. refl)
                          (λ n5.
                            starts_zero-if (nat_beq d 6) "6" _ (λ e. refl)
                              (λ n6.
                                starts_zero-if (nat_beq d 7) "7" _ (λ e. refl)
                                  (λ n7.
                                    starts_zero-if (nat_beq d 8) "8" _ (λ e. refl)
                                      (λ n8. refl)))))))))

starts_zero-show_digits :
    (fuel n : ℕ) → 0 < n → n < suc fuel → starts_zero (show_digits (suc fuel) n) ≡ false
unfolding show_digits
starts_zero-show_digits zero n h k = absurd (omega arith)
starts_zero-show_digits (suc fuel) n h k =
    starts_zero-if (ltb n 10) (digit_text n)
      (show_digits (suc fuel) (n / 10) ++ digit_text (n % 10)) (λ e. starts_zero-digit_text n h)
      (λ e.
        starts_zero-append (show_digits (suc fuel) (n / 10)) (digit_text (n % 10))
          (show_digits-Written fuel (n / 10))
        ∙ starts_zero-show_digits fuel (n / 10) (ground arith) (ground arith))

pub starts_zero-show_nat : (n : ℕ) → 0 < n → starts_zero (show_nat n) ≡ false
unfolding show_nat
starts_zero-show_nat n h = starts_zero-show_digits n n h (omega arith)

read-if :
    (b : Bool) (acc d : ℕ) (s t : String)
    → (b ≡ true → decimal_from acc s ≡ acc * 10 + d)
    → (b ≡ false → decimal_from acc t ≡ acc * 10 + d)
    → decimal_from acc (if b then s else t) ≡ acc * 10 + d
read-if true acc d s t h k = h refl
read-if false acc d s t h k = k refl

pub decimal_from-append :
    (acc : ℕ) (s t : String) → decimal_from acc (s ++ t) ≡ decimal_from (decimal_from acc s) t
unfolding decimal_from
decimal_from-append acc [] t = ap (decimal_from acc) (nil t)
decimal_from-append acc (c ∷ s) t =
    ap (decimal_from acc) (cons c s t) ∙ decimal_from-append (acc * 10 + (code c - b'0')) s t

decimal_from-digit_text : (acc d : ℕ) → d < 10 → decimal_from acc (digit_text d) ≡ acc * 10 + d
unfolding decimal_from digit_text
decimal_from-digit_text acc d h =
    read-if (nat_beq d 0) acc d "0" _ (λ e0. omega (arith, (nat_beq_iff d 0).0 e0))
      (λ n0.
        read-if (nat_beq d 1) acc d "1" _ (λ e1. omega (arith, (nat_beq_iff d 1).0 e1))
          (λ n1.
            read-if (nat_beq d 2) acc d "2" _ (λ e2. omega (arith, (nat_beq_iff d 2).0 e2))
              (λ n2.
                read-if (nat_beq d 3) acc d "3" _ (λ e3. omega (arith, (nat_beq_iff d 3).0 e3))
                  (λ n3.
                    read-if (nat_beq d 4) acc d "4" _ (λ e4. omega (arith, (nat_beq_iff d 4).0 e4))
                      (λ n4.
                        read-if (nat_beq d 5) acc d "5" _
                          (λ e5. omega (arith, (nat_beq_iff d 5).0 e5))
                          (λ n5.
                            read-if (nat_beq d 6) acc d "6" _
                              (λ e6. omega (arith, (nat_beq_iff d 6).0 e6))
                              (λ n6.
                                read-if (nat_beq d 7) acc d "7" _
                                  (λ e7. omega (arith, (nat_beq_iff d 7).0 e7))
                                  (λ n7.
                                    read-if (nat_beq d 8) acc d "8" _
                                      (λ e8. omega (arith, (nat_beq_iff d 8).0 e8))
                                      (λ n8.
                                        ground (arith, n0, n1, n2, n3, n4, n5, n6, n7, n8))))))))))

show_digits-decimal : (fuel n : ℕ) → n < fuel → decimal (show_digits fuel n) ≡ n
unfolding show_digits decimal
show_digits-decimal zero n h = absurd (omega arith)
show_digits-decimal (suc fuel) n h = elim (Bool-cases (ltb n 10)) [
  | inl e ↦ rw (e, decimal_from-digit_text 0 n (ground arith)) (omega arith)
  | inr e ↦
      let front = show_digits-decimal fuel (n / 10) (ground arith) in
      rw (e, decimal_from-append 0 (show_digits fuel (n / 10)) (digit_text (n % 10)))
        (ap (λ k. decimal_from k (digit_text (n % 10))) front
          ∙ decimal_from-digit_text (n / 10) (n % 10) (omega arith)
          ∙ omega arith)
]

pub decimal-show_nat : (n : ℕ) → decimal (show_nat n) ≡ n
unfolding show_nat
decimal-show_nat n = show_digits-decimal (suc n) n (omega arith)
