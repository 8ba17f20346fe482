-- ===== src/StaticFiles/Plans.antt =====
-- proxy/fs.rs: the replies for a file whose size and range are known.
use raddy.Base.{
  ℕ, suc, ◌+◌, ◌-◌, ◌≤◌, ◌≡◌, ◌⊎◌, inl, inr, refl, sym, ap, ◌∙◌, subst, List, [], ◌∷◌, Option, none,
  some, Bool, true, false, take, drop, length, length-drop, ltb, ◌&&◌, ◌||◌, ◌==◌, arith, ◌<◌,
  Bool-cases, ltb→lt, Option-cases,
}
use raddy.ByteRange.{no_range, satisfiable, parse_range, Streamed, sent, truncated, stuck}
use raddy.ByteRange.Body.{joined, EndsOnce, Whole, stream-Whole}
use raddy.ByteRange.Requested.{IsWithin, parse_range-IsWithin}
use raddy.Compression.Encoders.{encoder_new}
use raddy.Compression.{Encoding, Algo, token, choose}
use raddy.Validation.Compile.{Modifier}
use raddy.Values.{Text}
use raddy.StaticFiles.Fields.{
  full_plan-HasFields, partial_plan-HasFields, encoded-HasFields, response_of-HasFields,
}
use raddy.StaticFiles.Headers.{RequestMethod, get, head, other_method, Session, has_header_down}
use raddy.StaticFiles.Reply.{
  Opened, Disk, Response, with_body, Plan, Library, algo_for, reply_with, response_of, reply_for,
  raw_body, encoded_body, respond_plan, is_head, is_served, min_compress_bytes, full_plan,
  partial_plan, content_range, start_of,
}
use raddy.StaticFiles.Answers.{
  IsPlain, IsSteady, Describes, whole, part, HasLength, Found, Answers, bodyless, plain, encoded,
}

Whole-sent :
    (text : List ℕ) (body : Streamed)
    → Whole text body
    → (chunks : List (List ℕ × Bool)) × (body ≡ sent chunks)
      × (joined chunks ≡ text)
      × EndsOnce chunks
Whole-sent text (sent chunks) (same, ends) = (chunks, refl, same, ends)
Whole-sent text (truncated chunks) v = elim v [ ]
Whole-sent text stuck v = elim v [ ]

is_head-head : (m : RequestMethod) → is_head m ≡ true → m ≡ head
is_head-head get h = absurd (cc)
is_head-head head h = refl
is_head-head other_method h = absurd (cc)

is_served-get : (m : RequestMethod) → is_served m ≡ true → is_head m ≡ false → m ≡ get
is_served-get get served h = refl
is_served-get head served h = absurd (cc)
is_served-get other_method served h = absurd (cc)

take_all : (text : List ℕ) → take (length text) text ≡ text
take_all [] = refl
take_all (c ∷ text) = ap (λ t. c ∷ t) (take_all text)

bare_head :
    (m : RequestMethod) (n : ℕ) → (is_head m || (n == 0 && true)) ≡ true → (m ≡ head) ⊎ (n ≡ 0)
bare_head head n h = inl refl
bare_head get n h = inr (ground arith)
bare_head other_method n h = inr (ground arith)

module _ {F E : Type 0} (lib : Library F E) where
  module _ (disk : Disk) (root path : Text) (encode : List Encoding) (modifiers : List Modifier)
      (session : Session) where
    -- An encoding is chosen only for a whole and large body.
    algo_for-some :
        (plan : Plan) (algo : Algo)
        → algo_for lib encode session plan ≡ some algo
        → ((plan.status == 206) ≡ false)
          × (is_head session.method ≡ false)
          × (ltb plan.body_len min_compress_bytes ≡ false)
          × (choose F lib.one lib.is_positive lib.parse_f32 encode session.accept_encoding
              ≡ some algo)
    unfolding algo_for
    algo_for-some plan algo h =
        elim (Bool-cases
          (plan.status == 206 || is_head session.method || ltb plan.body_len min_compress_bytes)) [
            | inl bare ↦ absurd (let gone = rw (bare, algo_for) at h in cc)
            | inr full ↦ (ground arith, ground arith, ground arith, rw (full, algo_for) at h)
          ]

    -- Why none is chosen.
    algo_for-none :
        (plan : Plan)
        → algo_for lib encode session plan ≡ none
        → is_head session.method ≡ false
        → (plan.status ≡ 206)
          ⊎ ((plan.body_len < min_compress_bytes)
              ⊎ (choose F lib.one lib.is_positive lib.parse_f32 encode session.accept_encoding
                  ≡ none))
    unfolding algo_for
    algo_for-none plan h not_head = elim (Bool-cases (plan.status == 206)) [
      | inl partial ↦ inl (ground arith)
      | inr full ↦ elim (Bool-cases (ltb plan.body_len min_compress_bytes)) [
        | inl small ↦ inr (inl (ltb→lt _ _ small))
        | inr large ↦
            let open_ended : (plan.status == 206
                  || is_head session.method
                  || ltb plan.body_len min_compress_bytes)
                ≡ false =
              ground arith in
            inr (inr (rw (open_ended, algo_for) at h))
      ]
    ]

    module _ (file : Text) (opened : Opened) (size : ℕ)
        (found : Found lib disk root path encode modifiers session file opened size)
        (served : is_served session.method ≡ true)
        (steady : session.method ≡ get → IsSteady opened size)
        (no_rewrite : has_header_down modifiers ≡ false) where
      -- A body that is not encoded, for the part of the file from `start` on.
      raw-Answers :
          (start len : ℕ) (response : Response) (body : Streamed)
          → Describes lib size response (parse_range session.range size) start len
          → HasLength lib response len
          → (is_head session.method ≡ false
              → IsPlain lib disk root path encode modifiers session response len)
          → (session.method ≡ get → Whole (take len (drop start opened.contents)) body)
          → Answers lib disk root path encode modifiers session
              (reply_with (is_head session.method || (len == 0 && true)) response body)
      raw-Answers start len response body part_of lens bare_body sends =
          elim (Bool-cases (is_head session.method || (len == 0 && true))) [
            | inl bare ↦ rw bare (
                bodyless file opened size start len response found
                  (bare_head session.method len bare) part_of lens)
            | inr full ↦
                let not_head : is_head session.method ≡ false = ground arith in
                let m = is_served-get session.method served not_head in
                rw full (
                  plain file opened size start len response body found m part_of lens
                    (bare_body not_head) (sends m))
          ]

      -- What the loop sends of the file.
      sends-part :
          (plan : Plan)
          → start_of plan.stream_range + plan.body_len ≤ size
          → session.method ≡ get
          → Whole
              (take plan.body_len (drop (start_of plan.stream_range) opened.contents))
              (raw_body opened plan)
      sends-part plan fits m =
          let v = steady m in
          let e = v.whole_size in
          stream-Whole (suc plan.body_len) opened.reads
            (drop (start_of plan.stream_range) opened.contents) plan.body_len v.positive
            (omega (arith, length-drop (start_of plan.stream_range) opened.contents)) (omega arith)

      encoded-Answers :
          (algo : Algo)
          → parse_range session.range size ≡ no_range
          → algo_for lib encode session (full_plan size) ≡ some algo
          → Answers lib disk root path encode modifiers session (
              with_body
                (response_of lib encode modifiers session file size (full_plan size) (some algo))
                (encoded_body lib (encoder_new lib.codec algo) (raw_body opened (full_plan size))))
      encoded-Answers algo asked chose =
          let (full, not_head, big, choice) = algo_for-some (full_plan size) algo chose in
          let m = is_served-get session.method served not_head in
          let (chunks, sends, same, ends) =
            Whole-sent (take size opened.contents) (raw_body opened (full_plan size))
              (sends-part (full_plan size) (omega arith) m) in
          let fields =
            response_of-HasFields lib encode modifiers session file size (full_plan size)
              (some algo) none (some (token algo)) none no_rewrite
              (encoded-HasFields lib encode session file size algo) in
          let v = steady m in
          let all_of : take size opened.contents ≡ opened.contents =
            ap (λ n. take n opened.contents) v.whole_size ∙ take_all opened.contents in
          let response =
            response_of lib encode modifiers session file size (full_plan size) (some algo) in
          subst
            (λ body.
              Answers lib disk root path encode modifiers session
                (with_body response (encoded_body lib (encoder_new lib.codec algo) body)))
            (sym sends)
            (encoded file opened size response algo chunks found m
              (record {
                no_range_asked = asked;
                large = ground (arith, big);
                chosen = choice;
                status_ok = refl;
                no_len = fields.len_field;
                encoding_field = fields.encoding_field;
              })
              (same ∙ all_of) ends)

      reply_by :
          (plan : Plan) (algo : Option Algo)
          → algo_for lib encode session plan ≡ algo
          → Answers lib disk root path encode modifiers session
              (reply_for lib encode modifiers session file size opened plan algo)
          → Answers lib disk root path encode modifiers session
              (respond_plan lib encode modifiers session file size opened plan)
      unfolding respond_plan
      reply_by plan algo e v =
          subst
            (λ a.
              Answers lib disk root path encode modifiers session
                (reply_for lib encode modifiers session file size opened plan a))
            (sym e) v

      pub full-Answers :
          parse_range session.range size ≡ no_range
          → Answers lib disk root path encode modifiers session
              (respond_plan lib encode modifiers session file size opened (full_plan size))
      full-Answers asked = elim (Option-cases (algo_for lib encode session (full_plan size))) [
        | inl gone ↦
            let fields =
              response_of-HasFields lib encode modifiers session file size (full_plan size) none
                (some (lib.print_number size)) none none no_rewrite
                (full_plan-HasFields lib encode session file size) in
            let response =
              response_of lib encode modifiers session file size (full_plan size) none in
            reply_by (full_plan size) none gone (
              raw-Answers 0 size response _
                (subst (λ r. Describes lib size response r 0 size) (sym asked)
                  (whole refl fields.range_field))
                (record { len_field = fields.len_field; encoding_field = fields.encoding_field })
                (algo_for-none (full_plan size) gone) (sends-part (full_plan size) (omega arith)))
        | inr (algo, there) ↦
            let (full, not_head, big, choice) = algo_for-some (full_plan size) algo there in
            let more : (is_head session.method || (size == 0 && false)) ≡ false = ground arith in
            reply_by (full_plan size) (some algo) there (rw more (encoded-Answers algo asked there))
      ]

      pub partial-Answers :
          (start end : ℕ)
          → parse_range session.range size ≡ satisfiable start end
          → Answers lib disk root path encode modifiers session
              (respond_plan lib encode modifiers session file size opened (partial_plan start end))
      partial-Answers start end asked =
          elim (Option-cases (algo_for lib encode session (partial_plan start end))) [
            | inl gone ↦
                let within =
                  subst (IsWithin size) asked (parse_range-IsWithin session.range size) in
                let fields =
                  response_of-HasFields lib encode modifiers session file size
                    (partial_plan start end) none (some (lib.print_number (end - start))) none
                    (some (content_range lib start end size)) no_rewrite
                    (partial_plan-HasFields lib encode session file size start end) in
                let response =
                  response_of lib encode modifiers session file size (partial_plan start end)
                    none in
                reply_by (partial_plan start end) none gone (
                  raw-Answers start (end - start) response _
                    (subst (λ r. Describes lib size response r start (end - start)) (sym asked)
                      (part start end within.0 within.1 refl fields.range_field))
                    (record {
                      len_field = fields.len_field;
                      encoding_field = fields.encoding_field;
                    })
                    (λ h. inl refl)
                    (sends-part (partial_plan start end) (omega (arith, within.0, within.1))))
            | inr (algo, there) ↦
                let full = (algo_for-some (partial_plan start end) algo there).0 in
                absurd (let partial : (206 == 206) ≡ true = refl in cc)
          ]
