-- ===== src/Message/Copies.antt =====
-- Copies of messages (message.h): the flag `ready` and the arrays are overwritten one by one.
use shared_memory_hashtable.Common.{
  ◌≡◌, refl, ap, [], ◌∷◌, length, arith, ok, ◌>>=◌, Bool, true, false, if◌then◌else◌,
}
use shared_memory_hashtable.Message.{
  Bytes, Message, copy_array, test_and_set, clear_flag, assign, move_assign,
}

-- The target of a copy from an array of the same length becomes that array.
copy_array-same :
    (source target : Bytes) → length source ≡ length target → copy_array source target ≡ ok source
unfolding copy_array
copy_array-same [] [] h = refl
copy_array-same [] (x ∷ target) h = absurd (omega arith)
copy_array-same (s ∷ source) [] h = absurd (omega arith)
copy_array-same (s ∷ source) (x ∷ target) h = rw (copy_array-same source target (omega arith))

flag-copied : (flag old : Bool) → (if flag then test_and_set old else clear_flag old) ≡ flag
unfolding test_and_set clear_flag
flag-copied true old = refl
flag-copied false old = refl

-- Assigning a message whose arrays are as long as those of the target, by a copy or by a move, does
-- not fault and leaves nothing of what the target was: all fields, also its flag `ready`, are those of
-- the other message.
pub assign_lem :
    (this other : Message)
    → length other.key ≡ length this.key
    → length other.payload ≡ length this.payload
    → (assign this other ≡ ok other) × (move_assign this other ≡ other)
unfolding assign move_assign
assign_lem this other hk hp =
    let flag = flag-copied other.ready this.ready in
    (
      rw
          (
            copy_array-same other.key this.key hk,
            ◌>>=◌,
            copy_array-same other.payload this.payload hp,
          )
          (ap (λ f. ok (record other { ready = f })) flag),
      ap (λ f. record other { ready = f }) flag,
    )
