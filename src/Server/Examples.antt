-- ===== src/Server/Examples.antt =====
-- The theorems on exchanges and snapshots with the server, for two processes and a table of 8 buckets. The keys are
-- hashed by their lengths.
use shared_memory_hashtable.Common.{
  ℕ, ◌+◌, ◌≡◌, ◌↔◌, refl, ap, ap₂, sym, ◌∙◌, true, false, Bool-cases, inl, inr, none, some, List,
  [], ◌∷◌, length, ◌==◌, arith, ok, Returns,
}
use shared_memory_hashtable.HashTable.{new_sized, get_bucket, at}
use shared_memory_hashtable.HashTable.Keys.{Key}
use shared_memory_hashtable.HashTable.Buckets.{IsValid, view}
use shared_memory_hashtable.HashTable.Policy.{IsEmpty, new_sized-IsEmpty}
use shared_memory_hashtable.HashTable.Dictionary.{Call}
use shared_memory_hashtable.Message.{
  Bytes, Mode, Message, new_message, zeros, max_length_key, max_length_val,
}
use shared_memory_hashtable.Client.{same_text}
use shared_memory_hashtable.Server.{Os, Server, respond}
use shared_memory_hashtable.Message.Text.{length-zeros}
use shared_memory_hashtable.Server.Snapshot.{Works, Snapshot, respond-Snapshot}
use shared_memory_hashtable.Server.Exchange.{Fits}
use shared_memory_hashtable.Server.Replies.{exchanges, expected, exchanges_refine}

same_text_refl : (s : Bytes) → same_text s s ≡ true
unfolding same_text
same_text_refl [] = refl
same_text_refl (x ∷ s) = let e : (x == x) ≡ true = ground arith in rw (e, same_text_refl s)

same_text_same : (s t : Bytes) → same_text s t ≡ true → s ≡ t
unfolding same_text
same_text_same [] [] h = refl
same_text_same [] (y ∷ t) h = cc
same_text_same (x ∷ s) [] h = cc
same_text_same (x ∷ s) (y ∷ t) h = elim (Bool-cases (x == y)) [
  | inl e ↦
      let same : x ≡ y = ground arith in ap₂ (λ a l. a ∷ l) same (same_text_same s t (rw e at h))
  | inr e ↦ let clash : false ≡ true = rw e at h in cc
]

pub text_equal_iff : (s t : Bytes) → (same_text s t ≡ true) ↔ (s ≡ t)
text_equal_iff s t = (same_text_same s t, λ e. ap (same_text s) (sym e) ∙ same_text_refl s)

instance abbrev pub text_key : Key Bytes
text_key = record { equal = same_text; hash = length; equal_iff = text_equal_iff }

abbrev pub os : Os
os = record {
  stoul = λ _. some 3;
  to_string = λ n. (48 + n) ∷ [];
  shm_open = λ _. true;
  ftruncate = λ _ _. true;
  mmap = λ _ _. true;
  shm_unlink = λ _. true;
  truncated = λ cells _. cells;
  stale_key = zeros max_length_key;
  stale_val = zeros max_length_val;
}

abbrev pub fresh : Server
fresh = record { table = new_sized 8 false; segments = λ _. none }

pub fresh-IsEmpty : IsEmpty (new_sized {K = Bytes} {V = Bytes} 8 false)
fresh-IsEmpty = (new_sized-IsEmpty 8 false (omega arith) (omega arith)).0

-- process 11 binds "ab" to "x", and process 12 reads it and removes it
abbrev session : List (ℕ × Call Bytes Bytes)
session =
    (11, Call.insert (97 ∷ 98 ∷ []) (120 ∷ []))
    ∷ (12, Call.get (97 ∷ 98 ∷ []))
    ∷ (12, Call.remove (97 ∷ 98 ∷ []))
    ∷ []

pub fresh-fits : (k v : Bytes) → view fresh.table k ≡ some v → Fits max_length_val v
fresh-fits k v h =
    let empty : view fresh.table k ≡ none = fresh-IsEmpty.2 k in
    let clash : none ≡ some v = sym empty ∙ h in cc

abbrev pub key_fits : Fits max_length_key (97 ∷ 98 ∷ [])
key_fits = (((λ e. omega arith), ((λ e. omega arith), tt)), omega arith)

abbrev pub value_fits : Fits max_length_val (120 ∷ [])
value_fits = (((λ e. omega arith), tt), omega arith)

exchanges_refine_example : Returns (exchanges os session fresh) λ r.
    (r.0 ≡ (expected (view fresh.table) session).0)
    × (view r.1.table ≡ (expected (view fresh.table) session).1)
    × IsValid r.1.table
exchanges_refine_example =
    exchanges_refine os session fresh ((key_fits, value_fits), (key_fits, (key_fits, tt)))
      fresh-IsEmpty.0 fresh-fits (rw fresh-IsEmpty.1 (omega arith))

-- a table whose bucket 3 has the entries "abc" ↦ "x" and "xyz" ↦ "y"
abbrev bucket : List (Bytes × Bytes)
bucket = (97 ∷ 98 ∷ 99 ∷ [], 120 ∷ []) ∷ (120 ∷ 121 ∷ 122 ∷ [], 121 ∷ []) ∷ []

abbrev filled : Server
filled = record {
  table = record {
    size = 2;
    capacity = 5;
    resizable = false;
    storage = [] ∷ [] ∷ [] ∷ bucket ∷ [] ∷ [];
  };
  segments = λ _. none;
}

-- "3", from process 7
abbrev bucket_request : Message
bucket_request = record new_message { mode = Mode.read_bucket; client_id = 7; key = 51 ∷ zeros 127 }

bucket_found : get_bucket filled.table 3 ≡ ok bucket
unfolding get_bucket at
bucket_found = refl

os-Works : Works os 7 bucket
os-Works = record {
  wide_key = length-zeros max_length_key;
  wide_val = length-zeros max_length_val;
  opened = refl;
  sized = refl;
  mapped = refl;
  name_text = (((λ e. omega arith), ((λ e. omega arith), tt)), omega arith);
  size_text = (((λ e. omega arith), tt), omega arith);
}

respond-Snapshot_example : Returns (respond os filled bucket_request) (Snapshot os filled 7 bucket)
respond-Snapshot_example =
    respond-Snapshot os filled bucket_request 3 bucket refl (omega (arith, length-zeros 127)) refl
      (omega arith) bucket_found
      (
        (((λ e. omega arith), ((λ e. omega arith), ((λ e. omega arith), tt))), omega arith),
        omega arith,
        value_fits,
        (
          (((λ e. omega arith), ((λ e. omega arith), ((λ e. omega arith), tt))), omega arith),
          omega arith,
          (((λ e. omega arith), tt), omega arith),
          tt,
        ),
      )
      os-Works
