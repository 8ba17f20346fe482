-- ===== src/Lexer/Rounds.antt =====
-- config/lexer.rs: what each round of the loop takes from the input.
use raddy.Base.{
  ℕ, ◌+◌, ◌%◌, ◌^◌, ◌<◌, ◌≡◌, refl, sym, ap, subst, ◌∙◌, List, [], ◌∷◌, ◌++◌, none, some, Bool,
  true, false, length, ◌==◌, arith, inl, inr, Bool-cases,
}
use raddy.Base.Ascii.{is_white}
use raddy.Config.Wildcard.{is_empty}
use raddy.Lexer.{
  TokenKind, word, l_brace, r_brace, newline, Token, Round, round, brace_round, take_while,
  drop_while, in_word, in_comment, is_placeholder, placeholder, behind_placeholder,
}
use raddy.Lexer.Spans.{while-append, any-take_while, placeholder-append, placeholder-white}
use raddy.Lexer.Places.{
  advance, text_of, IsProper, IsLineEnd, IsGap, white, comment, advance-plain, white-newline,
}

-- What a round takes from the input.
pub record Takes (c : ℕ) (text : List ℕ) (line col : ℕ) (r : Round) : Type 0 where
  pub taken : List ℕ
  pub whole : taken ++ r.left ≡ c ∷ text
  pub some_taken : 0 < length taken
  pub line_moves : r.line ≡ (advance taken (line, col)).0 % 2 ^ 32
  pub col_moves : r.col ≡ (advance taken (line, col)).1 % 2 ^ 32
  pub skipped : r.pushed ≡ none → IsGap taken r.left
  pub token :
      (t : Token)
      → r.pushed ≡ some t
      → (text_of t.kind ≡ taken)
        × (t.line ≡ line % 2 ^ 32)
        × (t.col ≡ col % 2 ^ 32)
        × IsProper t.kind

-- A round that pushes a token of what it takes.
token-Takes :
    (c : ℕ) (text : List ℕ) (line col : ℕ) (kind : TokenKind) (left : List ℕ) (line' col' : ℕ)
    → text_of kind ++ left ≡ c ∷ text
    → 0 < length (text_of kind)
    → advance (text_of kind) (line, col) ≡ (line', col')
    → IsProper kind
    → Takes c text line col (record {
      pushed = some (record { kind = kind; line = line % 2 ^ 32; col = col % 2 ^ 32 });
      left = left;
      line = line' % 2 ^ 32;
      col = col' % 2 ^ 32;
    })
token-Takes c text line col kind left line' col' whole some_taken moves proper = record {
  taken = text_of kind;
  whole = whole;
  some_taken = some_taken;
  line_moves = ap (λ p. p.0 % 2 ^ 32) (sym moves);
  col_moves = ap (λ p. p.1 % 2 ^ 32) (sym moves);
  skipped = λ h. absurd cc;
  token = λ t same.
      let there : ◌≡◌ {A = Token} (record { kind = kind; line = line % 2 ^ 32; col = col % 2 ^ 32 })
          t =
        cc in
      subst
        (λ x.
          (text_of x.kind ≡ text_of kind)
          × (x.line ≡ line % 2 ^ 32)
          × (x.col ≡ col % 2 ^ 32)
          × IsProper x.kind)
        there (refl, refl, refl, proper);
}

wrap_add : (a n : ℕ) → (a % 2 ^ 32 + n) % 2 ^ 32 ≡ (a + n) % 2 ^ 32
wrap_add a n = omega arith

wrap_more : (a n : ℕ) → (a % 2 ^ 32 + 1 + n) % 2 ^ 32 ≡ (a + 1 + n) % 2 ^ 32
wrap_more a n = omega arith

brace_round-Takes :
    (text : List ℕ) (line col : ℕ)
    → Takes b'{' text line col (brace_round text (line % 2 ^ 32) (col % 2 ^ 32))
unfolding brace_round advance
brace_round-Takes text line col = elim (Bool-cases (is_placeholder text)) [
  | inl named ↦
      let black = placeholder-white text named in
      rw (named, brace_round)
        (rw (wrap_more col (length (placeholder text))) (
          token-Takes b'{' text line col (word (b'{' ∷ placeholder text)) (behind_placeholder text)
            line (col + 1 + length (placeholder text))
            (ap (λ t. b'{' ∷ t) (placeholder-append text)) (omega arith)
            (advance-plain (placeholder text) line (col + 1)
              (white-newline (placeholder text) black))
            (refl, ground arith)))
  | inr block ↦
      rw (block, brace_round)
        (rw (wrap_add col 1)
          (token-Takes b'{' text line col l_brace text line (col + 1) refl (omega arith) refl tt))
]

first-take_while :
    (p : ℕ → Bool) (c : ℕ) (text : List ℕ)
    → p c ≡ true
    → take_while p (c ∷ text) ≡ c ∷ take_while p text
unfolding take_while
first-take_while p c text h = rw (h, take_while) refl

in_word-black : (c : ℕ) → in_word c ≡ true → is_white c ≡ false
in_word-black c h = ground arith

in_comment-line : (c : ℕ) → in_comment c ≡ true → (c == 10) ≡ false
in_comment-line c h = ground arith

drop_while-IsLineEnd : (text : List ℕ) → IsLineEnd (drop_while in_comment text)
unfolding drop_while
drop_while-IsLineEnd [] = tt
drop_while-IsLineEnd (c ∷ text) = elim (Bool-cases (in_comment c)) [
  | inl more ↦ rw (more, drop_while) (drop_while-IsLineEnd text)
  | inr end ↦ rw (end, drop_while) (ground arith)
]

comment-Takes :
    (c : ℕ) (text : List ℕ) (line col : ℕ)
    → (c == b'#') ≡ true
    → Takes c text line col (record {
      pushed = none;
      left = drop_while in_comment (c ∷ text);
      line = line % 2 ^ 32;
      col = (col % 2 ^ 32 + length (take_while in_comment (c ∷ text))) % 2 ^ 32;
    })
comment-Takes c text line col hash =
    let begins : in_comment c ≡ true = ground arith in
    let first = first-take_while in_comment c text begins in
    let same : b'#' ≡ c = ground arith in
    let taken = take_while in_comment (c ∷ text) in
    let moves =
      advance-plain taken line col
        (any-take_while in_comment (λ d. d == 10) (c ∷ text) in_comment-line) in
    record {
      taken = taken;
      whole = while-append in_comment (c ∷ text);
      some_taken = omega (arith, ap length first);
      line_moves = ap (λ p. p.0 % 2 ^ 32) (sym moves);
      col_moves = wrap_add col (length taken) ∙ ap (λ p. p.1 % 2 ^ 32) (sym moves);
      skipped = λ h.
          subst (λ x. IsGap x (drop_while in_comment (c ∷ text)))
            (ap (λ d. d ∷ take_while in_comment text) same ∙ sym first)
            (comment (take_while in_comment text) (drop_while in_comment (c ∷ text))
              (any-take_while in_comment (λ d. d == 10) text in_comment-line)
              (drop_while-IsLineEnd (c ∷ text)));
      token = λ t h. absurd (cc);
    }

word-Takes :
    (c : ℕ) (text : List ℕ) (line col : ℕ)
    → in_word c ≡ true
    → Takes c text line col (record {
      pushed = some (record {
        kind = word (take_while in_word (c ∷ text));
        line = line % 2 ^ 32;
        col = col % 2 ^ 32;
      });
      left = drop_while in_word (c ∷ text);
      line = line % 2 ^ 32;
      col = (col % 2 ^ 32 + length (take_while in_word (c ∷ text))) % 2 ^ 32;
    })
word-Takes c text line col begins =
    let black = any-take_while in_word is_white (c ∷ text) in_word-black in
    let first = first-take_while in_word c text begins in
    rw (wrap_add col (length (take_while in_word (c ∷ text)))) (
      token-Takes c text line col (word (take_while in_word (c ∷ text)))
        (drop_while in_word (c ∷ text)) line (col + length (take_while in_word (c ∷ text)))
        (while-append in_word (c ∷ text)) (omega (arith, ap length first))
        (advance-plain (take_while in_word (c ∷ text)) line col
          (white-newline (take_while in_word (c ∷ text)) black))
        (ap is_empty first, black))

white-Takes :
    (c : ℕ) (text : List ℕ) (line col : ℕ)
    → (c == 10) ≡ false
    → is_white c ≡ true
    → Takes c text line col (record {
      pushed = none;
      left = text;
      line = line % 2 ^ 32;
      col = (col % 2 ^ 32 + 1) % 2 ^ 32;
    })
unfolding advance
white-Takes c text line col other blank = record {
  taken = c ∷ [];
  whole = refl;
  some_taken = omega arith;
  line_moves = rw (other, advance) refl;
  col_moves = rw (other, advance) (wrap_add col 1);
  skipped = λ h. white c text blank (λ same. absurd (ground arith));
  token = λ t h. absurd (cc);
}

pub round-Takes :
    (c : ℕ) (text : List ℕ) (line col : ℕ)
    → Takes c text line col (round c text (line % 2 ^ 32) (col % 2 ^ 32))
unfolding round advance
round-Takes c text line col = elim (Bool-cases (c == 10)) [
  | inl ends ↦
      let same : 10 ≡ c = ground arith in
      rw (ends, round)
        (rw (wrap_add line 1) (
          token-Takes c text line col newline text (line + 1) 1 (ap (λ d. d ∷ text) same)
            (omega arith) refl tt))
  | inr other ↦ elim (Bool-cases (is_white c)) [
    | inl blank ↦ rw (other, round) (rw blank (white-Takes c text line col other blank))
    | inr black ↦ elim (Bool-cases (c == b'{')) [
      | inl opens ↦
          let same : b'{' ≡ c = ground arith in
          rw (other, round)
            (rw black (
              rw opens (
                subst (λ d. Takes d text line col (brace_round text (line % 2 ^ 32) (col % 2 ^ 32)))
                  same (brace_round-Takes text line col))))
      | inr not_open ↦ elim (Bool-cases (c == b'}')) [
        | inl closes ↦
            let same : b'}' ≡ c = ground arith in
            rw (other, round)
              (rw black (
                rw not_open (
                  rw closes (
                    rw (wrap_add col 1) (
                      token-Takes c text line col r_brace text line (col + 1)
                        (ap (λ d. d ∷ text) same) (omega arith) refl tt)))))
        | inr not_close ↦ elim (Bool-cases (c == b'#')) [
          | inl hash ↦
              rw (other, round)
                (rw black
                  (rw not_open (rw not_close (rw hash (comment-Takes c text line col hash)))))
          | inr not_hash ↦
              let begins : in_word c ≡ true = ground arith in
              rw (other, round)
                (rw black
                  (rw not_open (rw not_close (rw not_hash (word-Takes c text line col begins)))))
        ]
      ]
    ]
  ]
]
