-- ===== src/Message/Text.antt =====
-- Texts go through the byte arrays of messages unchanged (message.h; `uint8_to_string` and the calls
-- of `memcpy` in server.cpp and client.cpp).
use shared_memory_hashtable.Common.{
  ℕ, zero, suc, ◌≤◌, ◌<◌, ◌≢◌, ◌≡◌, refl, inl, inr, Bool-cases, false, [], ◌∷◌, ◌++◌, length, ◌==◌,
  arith, fault, out_of_range, Returns, length-append,
}
use shared_memory_hashtable.Message.{
  Bytes, zeros, copy_bytes, uint8_to_string, c_str, new_message, max_length_key, max_length_val,
}

-- no terminator in a text
abbrev pub IsText : Bytes → Type 0
IsText [] = Unit {0}
IsText (x ∷ s) = (x ≢ 0) × IsText s

pub length-zeros : (n : ℕ) → length (zeros n) ≡ n
unfolding zeros
length-zeros zero = refl
length-zeros (suc n) = omega (arith, length-zeros n)

pub uint8_to_string-IsText : (v : Bytes) → IsText (uint8_to_string v)
unfolding uint8_to_string
uint8_to_string-IsText [] = tt
uint8_to_string-IsText (x ∷ v) = elim (Bool-cases (x == 0)) [
  | inl stop ↦ rw stop tt
  | inr more ↦ rw more ((λ e. ground arith), uint8_to_string-IsText v)
]

pub text_unchanged : (s : Bytes) → IsText s → uint8_to_string s ≡ s
unfolding uint8_to_string
text_unchanged [] h = refl
text_unchanged (x ∷ s) h =
    let e : (x == 0) ≡ false = ground (arith, h.0) in rw (e, text_unchanged s h.1)

-- A text shorter than the array is read back as it was, and the array keeps its length.
pub copied :
    (array s : Bytes)
    → IsText s
    → length s < length array
    → Returns
        (copy_bytes array (s ++ 0 ∷ []))
        λ a. (uint8_to_string a ≡ s) × (length a ≡ length array)
unfolding copy_bytes uint8_to_string
copied [] s h lt = absurd (omega arith)
copied (a ∷ array) [] h lt = (0 ∷ array, refl, (refl, refl))
copied (a ∷ array) (x ∷ s) h lt =
    let (r, run, (same, long)) = copied array s h.1 (omega arith) in
    let e : (x == 0) ≡ false = ground (arith, h.0) in
    (x ∷ r, rw run, (rw (e, same), omega (arith, long)))

-- A text shorter than the array, copied with its terminator by `memcpy`, is what `uint8_to_string`
-- reads back, and the array keeps its length.
pub copy_bytes-uint8_to_string :
    (array s : Bytes)
    → IsText s
    → length s < length array
    → Returns (copy_bytes array (c_str s)) λ a. (uint8_to_string a ≡ s) × (length a ≡ length array)
unfolding c_str
copy_bytes-uint8_to_string array s h lt = rw (text_unchanged s h) (copied array s h lt)

overflow : (array s : Bytes) → length array < length s → copy_bytes array s ≡ fault out_of_range
unfolding copy_bytes
overflow array [] lt = absurd (omega arith)
overflow [] (x ∷ s) lt = refl
overflow (a ∷ array) (x ∷ s) lt = rw (overflow array s (omega arith))

-- A text that is as long as the array, or longer, is copied past its end.
pub copy_bytes-overflow :
    (array s : Bytes)
    → IsText s
    → length array ≤ length s
    → copy_bytes array (c_str s) ≡ fault out_of_range
unfolding c_str
copy_bytes-overflow array s h le =
    rw (text_unchanged s h) (overflow array (s ++ 0 ∷ []) (omega (arith, length-append s (0 ∷ []))))

pub length-key : length new_message.key ≡ max_length_key
unfolding new_message
length-key = length-zeros max_length_key

pub length-payload : length new_message.payload ≡ max_length_val
unfolding new_message
length-payload = length-zeros max_length_val

pub empty_payload : uint8_to_string new_message.payload ≡ []
unfolding new_message zeros uint8_to_string
empty_payload = refl

copied_zeros :
    (n : ℕ) (s : Bytes)
    → IsText s
    → length s ≤ n
    → Returns (copy_bytes (zeros n) s) λ a. uint8_to_string a ≡ s
unfolding copy_bytes uint8_to_string zeros
copied_zeros n [] h le = (zeros n, refl, blank n)
  where
    blank : (n : ℕ) → uint8_to_string (zeros n) ≡ []
    blank zero = refl
    blank (suc n) = refl
copied_zeros zero (x ∷ s) h le = absurd (omega arith)
copied_zeros (suc n) (x ∷ s) h le =
    let (r, run, same) = copied_zeros n s h.1 (omega arith) in
    let e : (x == 0) ≡ false = ground (arith, h.0) in (x ∷ r, rw run, rw (e, same))

-- A text copied without its terminator into the empty payload
pub payload-copied :
    (s : Bytes)
    → IsText s
    → length s ≤ max_length_val
    → Returns (copy_bytes new_message.payload s) λ a. uint8_to_string a ≡ s
unfolding new_message
payload-copied s h le = copied_zeros max_length_val s h le

-- An array with a text that is not empty does not start with a zero byte.
pub first_byte_nonzero :
    (a : Bytes) {x : ℕ} {s : Bytes}
    → uint8_to_string a ≡ x ∷ s
    → (y : ℕ) × (b : Bytes) × (a ≡ y ∷ b) × (y ≢ 0)
unfolding uint8_to_string
first_byte_nonzero [] h = absurd (clash h)
  where
    clash : {x : ℕ} {s : Bytes} → [] ≡ x ∷ s → ⊥
    clash e = cc
first_byte_nonzero (y ∷ b) {x} {s} h = elim (Bool-cases (y == 0)) [
  | inl stop ↦ let e : [] ≡ x ∷ s = rw stop at h in absurd cc
  | inr more ↦ (y, b, refl, λ e. ground arith)
]
