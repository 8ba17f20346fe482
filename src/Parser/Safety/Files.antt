-- ===== src/Parser/Safety/Files.antt =====
-- config/parser.rs: the parser of a file ends, and its errors stand at one of its tokens.
use raddy.Base.{
  ℕ, zero, suc, ◌+◌, ◌<◌, List, [], ◌∷◌, Bool, false, length, ◌≡◌, refl, arith, inl, inr,
  Bool-cases, ltb,
}
use raddy.Config.Source.{Directives, GlobalConfig, global_default}
use raddy.Parser.{Parser, Method, ◌>>=◌, block, parse_statement, at_tokens, skip_newlines, peek}
use raddy.Parser.Files.{
  max_block_depth, leave, guarded, unexpected_rest, parse_handle, named_directive, dispatch,
  directive_statement, parse_directive_block_body, parse_directive_block, parse_site, Blocks,
  file_statement, global_eof, parse_blocks, global_block, all_blocks, file_of, parse_raddexfile,
}
use raddy.Parser.Safety.{
  IsSafe, IsReady, Ends, safe, pure-IsSafe, or_fail-IsSafe, bind-IsSafe, error_at-spot,
  and_then-Ends, weaken-Ends,
}
use raddy.Parser.Safety.Blocks.{
  parse_layer4_udp-IsSafe, parse_layer4_tcp-IsSafe, parse_reverse_proxy-IsSafe, apply_global-IsSafe,
}
use raddy.Parser.Safety.Statements.{
  stops, block-IsSafe, Peeked-cases, close-tokens, open-tokens, tail-IsReady, skipped-IsReady,
  and_then_statement-Ends,
}
use raddy.Parser.Global.{apply_global}
use raddy.Parser.Sites.{Std}
use raddy.Values.{Text, codes, first_word}

module _ {name : Text} {IsSpot : ℕ × ℕ → Type 0} where
  guarded-IsSafe :
      {n : ℕ} {body : Method Directives}
      → IsSafe name IsSpot n body
      → IsSafe name IsSpot n (guarded body)
  unfolding guarded
  guarded-IsSafe {body = body} safe_body = record {
    ends = λ p r h.
        let p' : Parser = record p { depth = p.depth + 1 } in
        let r' : IsReady name IsSpot p' = record {
          same_file = r.same_file;
          spots = r.spots;
          last_spot = r.last_spot;
          stmt_spot = r.stmt_spot;
        } in
        elim (Bool-cases (ltb max_block_depth p'.depth)) [
          | inl e ↦ rw (e, guarded) (error_at-spot (codes "block nesting exceeds 100 levels") p' r')
          | inr e ↦
              rw (e, guarded)
                (and_then-Ends name IsSpot (length p.tokens) (body p') leave
                  (safe_body.ends p' r' h)
                  (λ ds q rq b. (
                    record {
                      same_file = rq.same_file;
                      spots = rq.spots;
                      last_spot = rq.last_spot;
                      stmt_spot = rq.stmt_spot;
                    },
                    b,
                  )))
        ];
  }

  unexpected_rest-IsSafe : {n : ℕ} (rest : List Text) → IsSafe name IsSpot n (unexpected_rest rest)
  unexpected_rest-IsSafe [] = search safe
  unexpected_rest-IsSafe (w ∷ rest) = search safe

  module _ (std : Std) {n : ℕ} {inner : Method Directives}
      (inner_safe : IsSafe name IsSpot n inner) where
    parse_handle-IsSafe :
        (words : List Text) (block_open strip : Bool)
        → IsSafe name IsSpot n (parse_handle std inner words block_open strip)
    unfolding parse_handle
    parse_handle-IsSafe words block_open strip = bind-IsSafe (or_fail-IsSafe _) (λ parsed.
        bind-IsSafe (or_fail-IsSafe _) (λ a. bind-IsSafe (unexpected_rest-IsSafe parsed.1) (λ b.
          bind-IsSafe (or_fail-IsSafe _) (λ c. bind-IsSafe inner_safe (λ ds. pure-IsSafe _)))))

    named_directive-IsSafe :
        (w : Text) (words : List Text) (block_open : Bool)
        → IsSafe name IsSpot n (named_directive std inner w words block_open)
    named_directive-IsSafe w words block_open =
        search (safe, parse_reverse_proxy-IsSafe, parse_handle-IsSafe) depth 60 fits 8000

    dispatch-IsSafe :
        (words : List Text) (block_open : Bool)
        → IsSafe name IsSpot n (dispatch std inner words block_open)
    unfolding dispatch
    dispatch-IsSafe words block_open = named_directive-IsSafe (first_word words) words block_open

  directive_statement-IsSafe :
      (std : Std) {n : ℕ} {inner rest : Method Directives}
      → IsSafe name IsSpot n inner
      → IsSafe name IsSpot n rest
      → (w : List Text × Bool) → IsSafe name IsSpot n (directive_statement std inner rest w)
  directive_statement-IsSafe std hi hr ([], block_open) = hr
  directive_statement-IsSafe std hi hr (w ∷ args, block_open) =
      bind-IsSafe (dispatch-IsSafe std hi (w ∷ args) block_open)
        (λ d. bind-IsSafe hr (λ ds. pure-IsSafe _))

  -- The body of a block, on fuel: every round takes a token.
  parse_directive_block_body-IsSafe :
      (std : Std) (fuel : ℕ) → IsSafe name IsSpot fuel (parse_directive_block_body std fuel)
  unfolding parse_directive_block_body
  parse_directive_block_body-IsSafe std zero = record { ends = λ p r h. absurd (omega arith) }
  parse_directive_block_body-IsSafe std (suc fuel) = record {
    ends = λ p r h.
        let body = parse_directive_block_body-IsSafe std fuel in
        elim (Peeked-cases (peek p.tokens)) [
          | inl e ↦
              rw (e, parse_directive_block_body)
                (error_at-spot (codes "unexpected end of file inside block") p r)
          | inr (inl (behind, e)) ↦
              let (t, whole) = close-tokens p.tokens behind e in
              let (ready, fewer) = tail-IsReady p t behind whole r in
              rw (e, parse_directive_block_body) (ready, omega arith)
          | inr (inr (inl (behind, e))) ↦
              rw (e, parse_directive_block_body) (error_at-spot (codes "unexpected '{'") p r)
          | inr (inr (inr e)) ↦
              rw (e, parse_directive_block_body)
                (and_then_statement-Ends fuel _ p r h (rw e refl)
                  (directive_statement-IsSafe std (guarded-IsSafe body) body))
        ];
  }

  parse_directive_block-IsSafe :
      (std : Std) {n : ℕ} → IsSafe name IsSpot n (parse_directive_block std)
  unfolding parse_directive_block
  parse_directive_block-IsSafe std = record {
    ends = λ p r h.
        (guarded-IsSafe (parse_directive_block_body-IsSafe std (suc (length p.tokens)))).ends p r
          (omega arith);
  }

  parse_site-IsSafe :
      (std : Std) {n : ℕ} (words : List Text) (block_open : Bool)
      → IsSafe name IsSpot n (parse_site std words block_open)
  unfolding parse_site
  parse_site-IsSafe std words block_open = search (safe, parse_directive_block-IsSafe) depth 20

  file_statement-IsSafe :
      (std : Std) {n : ℕ} (b : Blocks) (w : List Text × Bool)
      → IsSafe name IsSpot n (file_statement std b w)
  file_statement-IsSafe std b ([], block_open) = pure-IsSafe b
  file_statement-IsSafe std b (w ∷ args, block_open) =
      search (safe, parse_layer4_tcp-IsSafe, parse_layer4_udp-IsSafe, parse_site-IsSafe) depth 20

  blocks_round-Ends :
      (std : Std) (fuel : ℕ) (b : Blocks)
      → ((c : Blocks) → IsSafe name IsSpot fuel (parse_blocks std fuel c))
      → (q : Parser) → IsReady name IsSpot q
      → length q.tokens < suc fuel
      → stops (peek q.tokens) ≡ false
      → Ends name IsSpot
          (length q.tokens)
          ((parse_statement >>= λ w. file_statement std b w >>= parse_blocks std fuel) q)
  blocks_round-Ends std fuel b rest q r h more =
      and_then_statement-Ends fuel _ q r h more
        (λ w. bind-IsSafe (file_statement-IsSafe std b w) rest)

  parse_blocks-IsSafe :
      (std : Std) (fuel : ℕ) (b : Blocks) → IsSafe name IsSpot fuel (parse_blocks std fuel b)
  unfolding parse_blocks parse_statement
  parse_blocks-IsSafe std zero b = record { ends = λ p r h. absurd (omega arith) }
  parse_blocks-IsSafe std (suc fuel) b = record {
    ends = λ p r h.
        let q : Parser = at_tokens p (skip_newlines p.tokens) in
        let (rq, fewer) = skipped-IsReady p r in
        let shorter : length q.tokens < suc fuel = omega arith in
        elim (Peeked-cases (peek q.tokens)) [
          | inl e ↦ rw (e, parse_blocks) (rq, fewer)
          | inr (inl (behind, e)) ↦
              rw (e, parse_blocks) (error_at-spot (codes "unexpected '}'") q rq)
          | inr (inr (inl (behind, e))) ↦
              rw (e, parse_blocks)
                (weaken-Ends name IsSpot (length q.tokens) (length p.tokens) _ fewer (
                  blocks_round-Ends std fuel b (parse_blocks-IsSafe std fuel) q rq shorter
                    (rw e refl)))
          | inr (inr (inr e)) ↦
              rw (e, parse_blocks)
                (weaken-Ends name IsSpot (length q.tokens) (length p.tokens) _ fewer (
                  blocks_round-Ends std fuel b (parse_blocks-IsSafe std fuel) q rq shorter
                    (rw e refl)))
        ];
  }

  all_blocks-IsSafe : (std : Std) {n : ℕ} → IsSafe name IsSpot n (all_blocks std)
  all_blocks-IsSafe std = record {
    ends = λ p r h. (parse_blocks-IsSafe std (suc (length p.tokens)) _).ends p r (omega arith);
  }

  global_block-Ends :
      (std : Std) (p : Parser)
      → IsReady name IsSpot p
      → Ends name IsSpot (length p.tokens) (global_block std (peek p.tokens) p)
  global_block-Ends std p r = elim (Peeked-cases (peek p.tokens)) [
    | inl e ↦ rw e (r, omega arith)
    | inr (inl (behind, e)) ↦ rw e (r, omega arith)
    | inr (inr (inl (behind, e))) ↦
        let (t, whole) = open-tokens p.tokens behind e in
        let (ready, fewer) = tail-IsReady p t behind whole r in
        let globals : IsSafe name IsSpot (suc (length behind))
            (block (global_eof std) (apply_global std.parse_ip) global_default) =
          block-IsSafe _ _ (apply_global-IsSafe std.parse_ip) _ in
        rw e (
          weaken-Ends name IsSpot (length behind) (length p.tokens) _ (omega arith)
            (globals.ends (at_tokens p behind) ready (omega arith)))
    | inr (inr (inr e)) ↦ rw e (r, omega arith)
  ]

  file_of-IsSafe :
      (std : Std) {n : ℕ} (global : GlobalConfig) → IsSafe name IsSpot n (file_of std global)
  file_of-IsSafe std global = bind-IsSafe (all_blocks-IsSafe std) (λ b. pure-IsSafe _)

  pub parse_raddexfile-Ends :
      (std : Std) (p : Parser)
      → IsReady name IsSpot p
      → Ends name IsSpot (length p.tokens) (parse_raddexfile std p)
  unfolding parse_raddexfile
  parse_raddexfile-Ends std p r =
      let q : Parser = at_tokens p (skip_newlines p.tokens) in
      let (rq, fewer) = skipped-IsReady p r in
      weaken-Ends name IsSpot (length q.tokens) (length p.tokens) (parse_raddexfile std p) fewer (
        and_then-Ends name IsSpot (length q.tokens) (global_block std (peek q.tokens) q)
          (file_of std) (global_block-Ends std q rq)
          (λ global q' rq' b.
            weaken-Ends name IsSpot (length q'.tokens) (length q.tokens) (file_of std global q') b
              ((file_of-IsSafe std {n = suc (length q.tokens)} global).ends q' rq' (omega arith))))
