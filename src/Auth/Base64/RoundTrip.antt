-- ===== src/Auth/Base64/RoundTrip.antt =====
-- _decode after _encode.
use tasks_management.Base.{
  All, List, [], all, ap, arith, eqb, false, length, refl, some, suc, true, zero, ℕ, ◌%◌, ◌*◌, ◌++◌,
  ◌+◌, ◌/◌, ◌<◌, ◌∷◌, ◌≡◌,
}
use tasks_management.Auth.Base64.{
  Held, b64decode, b64encode, decode, emitted, encode, four_bits, is_ascii, letter, no_bits,
  padding, pads, read_all, read_one, reading, rstrip_pads, six_bits, take_letter, take_pad,
  take_value, two_bits, value_of,
}

abbrev pub IsByte : ℕ → Type 0
IsByte b = b < 256

letter_lem :
    (v : ℕ)
    → v < 64
    → (value_of (letter v) ≡ some v) × (eqb (letter v) 61 ≡ false) × (is_ascii (letter v) ≡ true)
unfolding letter value_of
letter_lem v h = ground arith

read_one-letter :
    (h : Held) (p v : ℕ)
    → v < 64
    → read_one (reading h p) (letter v) ≡ ((take_value h v).0, reading (take_value h v).1 0)
unfolding read_one take_letter
read_one-letter h p v small =
    let (value, other, ascii) = letter_lem v small in rw (other, value) refl

read_all-letter :
    (h : Held) (p v : ℕ) (cs : List ℕ)
    → v < 64
    → read_all (reading h p) (letter v ∷ cs)
      ≡ emitted (take_value h v).0 (read_all (reading (take_value h v).1 0) cs)
unfolding read_all
read_all-letter h p v cs small = rw (read_one-letter h p v small) refl

-- After two letters a byte is out and four bits are held.
read_two :
    (p a v : ℕ) (cs : List ℕ)
    → IsByte a
    → v < 64
    → v / 16 ≡ a % 4
    → read_all (reading no_bits p) (letter (a / 4) ∷ letter v ∷ cs)
      ≡ emitted (some a) (read_all (reading (four_bits (v % 16)) 0) cs)
unfolding take_value
read_two p a v cs ha hv high =
    let byte : (a / 4) * 4 + v / 16 ≡ a = omega arith in
    rw
      (
        read_all-letter no_bits p (a / 4) (letter v ∷ cs) (omega arith),
        read_all-letter (six_bits (a / 4)) 0 v cs hv,
        byte,
      )
      refl

-- After three letters two bytes are out and two bits are held.
read_three :
    (p a b v w : ℕ) (cs : List ℕ)
    → IsByte a
    → v < 64
    → v / 16 ≡ a % 4
    → w < 64
    → v % 16 * 16 + w / 4 ≡ b
    → read_all (reading no_bits p) (letter (a / 4) ∷ letter v ∷ letter w ∷ cs)
      ≡ emitted (some a) (emitted (some b) (read_all (reading (two_bits (w % 4)) 0) cs))
unfolding take_value
read_three p a b v w cs ha hv high hw byte =
    rw
      (
        read_two p a v (letter w ∷ cs) ha hv high,
        read_all-letter (four_bits (v % 16)) 0 w cs hw,
        byte,
      )
      refl

read_nothing : (p : ℕ) → read_all (reading no_bits p) [] ≡ some []
unfolding read_all
read_nothing p = refl

end_four : (b : ℕ) → read_all (reading (four_bits b) 0) (61 ∷ 61 ∷ []) ≡ some []
unfolding read_all read_one take_pad
end_four b = refl

end_two : (b : ℕ) → read_all (reading (two_bits b) 0) (61 ∷ []) ≡ some []
unfolding read_all read_one take_pad
end_two b = refl

read_all-b64encode :
    (bs : List ℕ) (p : ℕ) → All IsByte bs → read_all (reading no_bits p) (b64encode bs) ≡ some bs
unfolding b64encode take_value
read_all-b64encode [] p h = read_nothing p
read_all-b64encode (a ∷ []) p (ha, h) =
    rw (read_two p a (a % 4 * 16) (61 ∷ 61 ∷ []) ha (omega arith) (omega arith))
      (ap (emitted (some a)) (end_four (a % 4 * 16 % 16)))
read_all-b64encode (a ∷ b ∷ []) p (ha, (hb, h)) =
    rw
      (
        read_three p a b (a % 4 * 16 + b / 16) (b % 16 * 4) (61 ∷ []) ha (omega arith) (omega arith)
            (omega arith) (omega arith),
        end_two (b % 16 * 4 % 4),
      )
      refl
read_all-b64encode (a ∷ b ∷ c ∷ rest) p (ha, (hb, (hc, h))) =
    let last : ((b % 16 * 4 + c / 64) % 4) * 64 + c % 64 ≡ c = omega arith in
    rw
      (
        read_three p a b (a % 4 * 16 + b / 16) (b % 16 * 4 + c / 64)
            (letter (c % 64) ∷ b64encode rest) ha (omega arith) (omega arith) (omega arith)
            (omega arith),
        read_all-letter (two_bits ((b % 16 * 4 + c / 64) % 4)) 0 (c % 64) (b64encode rest)
            (omega arith),
        last,
        read_all-b64encode rest 0 h,
      )
      refl

rstrip_pads-letter :
    (v : ℕ) (xs : List ℕ) → v < 64 → rstrip_pads (letter v ∷ xs) ≡ letter v ∷ rstrip_pads xs
unfolding rstrip_pads
rstrip_pads-letter v xs small = let (value, other, ascii) = letter_lem v small in rw other refl

padding_four : (n : ℕ) → padding (suc (suc (suc (suc n)))) ≡ padding n
unfolding padding
padding_four n = ap pads (omega arith)

pads_of_none : rstrip_pads [] ++ padding (length (rstrip_pads [])) ≡ []
unfolding rstrip_pads padding pads
pads_of_none = refl

pads_of_two :
    rstrip_pads (61 ∷ 61 ∷ []) ++ padding (suc (suc (length (rstrip_pads (61 ∷ 61 ∷ [])))))
    ≡ 61 ∷ 61 ∷ []
unfolding rstrip_pads padding pads
pads_of_two = refl

pads_of_one :
    rstrip_pads (61 ∷ []) ++ padding (suc (suc (suc (length (rstrip_pads (61 ∷ [])))))) ≡ 61 ∷ []
unfolding rstrip_pads padding pads
pads_of_one = refl

-- `rstrip` takes the "=" away and `decode` puts as many back.
padded :
    (bs : List ℕ)
    → All IsByte bs
    → rstrip_pads (b64encode bs) ++ padding (length (rstrip_pads (b64encode bs))) ≡ b64encode bs
unfolding b64encode
padded [] h = pads_of_none
padded (a ∷ []) (ha, h) =
    rw
      (
        rstrip_pads-letter (a / 4) (letter (a % 4 * 16) ∷ 61 ∷ 61 ∷ []) (omega arith),
        rstrip_pads-letter (a % 4 * 16) (61 ∷ 61 ∷ []) (omega arith),
      )
      (ap (λ r. letter (a / 4) ∷ letter (a % 4 * 16) ∷ r) pads_of_two)
padded (a ∷ b ∷ []) (ha, (hb, h)) =
    rw
      (
        rstrip_pads-letter (a / 4) (letter (a % 4 * 16 + b / 16) ∷ letter (b % 16 * 4) ∷ 61 ∷ [])
            (omega arith),
        rstrip_pads-letter (a % 4 * 16 + b / 16) (letter (b % 16 * 4) ∷ 61 ∷ []) (omega arith),
        rstrip_pads-letter (b % 16 * 4) (61 ∷ []) (omega arith),
      )
      (ap (λ r. letter (a / 4) ∷ letter (a % 4 * 16 + b / 16) ∷ letter (b % 16 * 4) ∷ r)
        pads_of_one)
padded (a ∷ b ∷ c ∷ rest) (ha, (hb, (hc, h))) =
    rw
      (
        rstrip_pads-letter (a / 4)
            (letter (a % 4 * 16 + b / 16)
              ∷ letter (b % 16 * 4 + c / 64)
              ∷ letter (c % 64)
              ∷ b64encode rest)
            (omega arith),
        rstrip_pads-letter (a % 4 * 16 + b / 16)
            (letter (b % 16 * 4 + c / 64) ∷ letter (c % 64) ∷ b64encode rest) (omega arith),
        rstrip_pads-letter (b % 16 * 4 + c / 64) (letter (c % 64) ∷ b64encode rest) (omega arith),
        rstrip_pads-letter (c % 64) (b64encode rest) (omega arith),
        padding_four (length (rstrip_pads (b64encode rest))),
        padded rest h,
      )
      refl

letter-IsAscii :
    (v : ℕ) (xs : List ℕ) → v < 64 → all is_ascii xs ≡ true → all is_ascii (letter v ∷ xs) ≡ true
unfolding all
letter-IsAscii v xs small h = let (value, other, ascii) = letter_lem v small in rw (ascii, h) refl

pads-IsAscii : (n : ℕ) → all is_ascii (pads n) ≡ true
unfolding all pads
pads-IsAscii zero = refl
pads-IsAscii (suc n) = pads-IsAscii n

pub b64encode-IsAscii : (bs : List ℕ) → All IsByte bs → all is_ascii (b64encode bs) ≡ true
unfolding b64encode pads
b64encode-IsAscii [] h = pads-IsAscii 0
b64encode-IsAscii (a ∷ []) (ha, h) =
    letter-IsAscii _ _ (omega arith) (letter-IsAscii _ _ (omega arith) (pads-IsAscii 2))
b64encode-IsAscii (a ∷ b ∷ []) (ha, (hb, h)) =
    letter-IsAscii _ _ (omega arith)
      (letter-IsAscii _ _ (omega arith) (letter-IsAscii _ _ (omega arith) (pads-IsAscii 1)))
b64encode-IsAscii (a ∷ b ∷ c ∷ rest) (ha, (hb, (hc, h))) = letter-IsAscii _ _ (omega arith) (
    letter-IsAscii _ _ (omega arith) (
      letter-IsAscii _ _ (omega arith)
        (letter-IsAscii _ _ (omega arith) (b64encode-IsAscii rest h))))

-- Bytes that are encoded as a text are decoded from it.
pub decode-encode : (bs : List ℕ) → All IsByte bs → decode (encode bs) ≡ some bs
unfolding decode encode b64decode
decode-encode bs h = rw (padded bs h, b64encode-IsAscii bs h) (read_all-b64encode bs 0 h)

-- No letter is a ".".
pub dotless : (v : ℕ) → v < 64 → eqb (letter v) 46 ≡ false
unfolding letter
dotless v h = ground arith
