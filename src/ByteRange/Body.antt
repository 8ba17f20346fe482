-- ===== src/ByteRange/Body.antt =====
-- proxy/fs.rs: what the stream of a body sends.
use raddy.Base.{
  ℕ, zero, suc, ◌+◌, ◌-◌, ◌≤◌, ◌<◌, ◌≡◌, refl, sym, ap, ◌∙◌, List, [], ◌∷◌, ◌++◌, Bool, true, false,
  ◌&&◌, length, take, drop, min, length-drop, append-nil, subst, All, ltb, ◌==◌, if◌then◌else◌,
  arith, inl, inr, Bool-cases,
}
use raddy.ByteRange.{Streamed, sent, truncated, stuck, push, most, later_reads, chunk_size, stream}

-- The bytes of the chunks.
abbrev pub joined : List (List ℕ × Bool) → List ℕ
joined [] = []
joined ((chunk, last) ∷ chunks) = chunk ++ joined chunks

-- Only the last chunk ends the body.
abbrev pub EndsOnce : List (List ℕ × Bool) → Type 0
EndsOnce [] = ⊥
EndsOnce ((chunk, last) ∷ []) = last ≡ true
EndsOnce ((chunk, last) ∷ c ∷ chunks) = (last ≡ false) × EndsOnce (c ∷ chunks)

abbrev pub Whole : List ℕ → Streamed → Type 0
Whole text (sent chunks) = (joined chunks ≡ text) × EndsOnce chunks
Whole text (truncated chunks) = ⊥
Whole text stuck = ⊥

EndsOnce-cons :
    (chunk : List ℕ) (chunks : List (List ℕ × Bool))
    → EndsOnce chunks
    → EndsOnce ((chunk, false) ∷ chunks)
EndsOnce-cons chunk [] v = elim v [ ]
EndsOnce-cons chunk (c ∷ chunks) v = (refl, v)

push-Whole :
    (chunk text : List ℕ) (r : Streamed)
    → Whole text r
    → Whole (chunk ++ text) (push (chunk, false) r)
push-Whole chunk text (sent chunks) (same, ends) =
    (ap (λ t. chunk ++ t) same, EndsOnce-cons chunk chunks ends)
push-Whole chunk text (truncated chunks) v = elim v [ ]
push-Whole chunk text stuck v = elim v [ ]

take_nil : (m : ℕ) → take {A = ℕ} m [] ≡ []
take_nil zero = refl
take_nil (suc m) = refl

take_add : (n m : ℕ) (text : List ℕ) → take n text ++ take m (drop n text) ≡ take (n + m) text
take_add zero m text = ap (λ k. take k text) (omega arith)
take_add (suc n) m [] =
    let sum : suc n + m ≡ suc (n + m) = omega arith in
    take_nil m ∙ ap (λ k. take {A = ℕ} k []) (sym sum)
take_add (suc n) m (c ∷ text) =
    let sum : suc n + m ≡ suc (n + m) = omega arith in
    ap (λ t. c ∷ t) (take_add n m text) ∙ ap (λ k. take k (c ∷ text)) (sym sum)

later-All : (reads : List ℕ) → All (λ r. 0 < r) reads → All (λ r. 0 < r) (later_reads reads)
later-All [] v = tt
later-All (r ∷ reads) v = v.1

most-lt : (reads : List ℕ) (want : ℕ) → All (λ r. 0 < r) reads → 0 < want → 0 < most reads want
most-lt [] want v h = h
most-lt (r ∷ reads) want v h = omega (arith, v.0)

most-le : (reads : List ℕ) (want : ℕ) → most reads want ≤ want
most-le [] want = omega arith
most-le (r ∷ reads) want = omega arith

-- One round that reads `n` bytes, with what the rounds behind it give.
round-Whole :
    (n remaining : ℕ) (file : List ℕ) (r : Streamed)
    → n ≤ remaining
    → (0 < remaining → 0 < n)
    → (n < remaining → Whole (take (remaining - n) (drop n file)) r)
    → Whole (take remaining file) (
        if n == 0 && ltb 0 remaining
        then truncated []
        else if remaining - n == 0
        then sent ((take n file, true) ∷ [])
        else push (take n file, false) r)
round-Whole n remaining file r fits moves rest =
    let going : (n == 0 && ltb 0 remaining) ≡ false = ground (arith, moves) in
    elim (Bool-cases (remaining - n == 0)) [
      | inl done ↦
          let all_read : n ≡ remaining = ground arith in
          rw going (rw done (append-nil (take n file) ∙ ap (λ k. take k file) all_read, refl))
      | inr more ↦
          let left : n < remaining = ground arith in
          let sum : n + (remaining - n) ≡ remaining = omega arith in
          rw going (
            rw more (
              subst (λ t. Whole t (push (take n file, false) r))
                (take_add n (remaining - n) file ∙ ap (λ k. take k file) sum)
                (push-Whole (take n file) (take (remaining - n) (drop n file)) r (rest left))))
    ]

-- When every read gives at least one byte until the end of the file and the file still has all
-- the bytes that were promised, the loop ends within one round more than that number, and the
-- chunks that it sends make up exactly those bytes, in order, with only the last of them marked
-- as the end.
pub stream-Whole :
    (fuel : ℕ) (reads file : List ℕ) (remaining : ℕ)
    → All (λ r. 0 < r) reads
    → remaining ≤ length file
    → remaining < fuel
    → Whole (take remaining file) (stream fuel reads file remaining)
unfolding stream
stream-Whole zero reads file remaining positive there enough = absurd (omega arith)
stream-Whole (suc fuel) reads file remaining positive there enough =
    let n = min (most reads (min remaining chunk_size)) (length file) in
    let low = most-le reads (min remaining chunk_size) in
    let moves : 0 < remaining → 0 < n =
      λ h. omega (arith, most-lt reads (min remaining chunk_size) positive (omega arith)) in
    round-Whole n remaining file (stream fuel (later_reads reads) (drop n file) (remaining - n))
      (omega arith) moves
      (λ h.
        stream-Whole fuel (later_reads reads) (drop n file) (remaining - n)
          (later-All reads positive) (omega (arith, length-drop n file))
          (omega (arith, moves (omega arith))))
