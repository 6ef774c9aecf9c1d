-- ===== src/Runner/Protocol/RoundTrip.antt =====
-- crates/idakit-runner/src/protocol.rs: what one side writes, the other reads.
use idakit.Base.{
  append_assoc, ℕ, ◌≤◌, ◌<◌, true, some, [], ◌∷◌, ◌++◌, ◌≡◌, ◌≢◌, refl, ◌∙◌, ap, Str, str, str_eq,
  length, leb, decimal, decimal-All, arith, All, length-append, ◌^◌,
}
use idakit.Runner.Protocol.{
  Utf8, value, Status, passed, skipped, as_str, Event, start, finish, control, output, write_event,
  control_prefix, read_trimmed, read_line, read_message, Request, run, quit, write_request,
  read_request, classify_request,
}
use idakit.Runner.Protocol.Lines.{
  NoNewline, EndsClean, All-append, All-map, take-append, drop-append, end_fields-written,
  read_line-written, read_request-written,
}

-- What `write_to` needs of an event: a name is one clean line of valid text; a message is any
-- valid text, newlines included.
abbrev pub IsSendable : Utf8 → Event → Type 0
IsSendable u (start n) = NoNewline n × EndsClean n × (u.valid n ≡ true)
IsSendable u (finish s ms message) =
    (ms < 2 ^ 64) × (length message < 2 ^ 64) × (u.valid message ≡ true)

EndsClean-space : (n : Str) → EndsClean n → EndsClean (32 ∷ n)
EndsClean-space [] h = refl
EndsClean-space (c ∷ cs) h = h

digits_clean :
    (c : ℕ) (s : Str) → (48 ≤ c) × (c ≤ 57) → All (λ d. (48 ≤ d) × (d ≤ 57)) s → EndsClean (c ∷ s)
digits_clean c [] h k = ground arith
digits_clean c (d ∷ s) h k = digits_clean d s k.0 k.1

digits_clean_after :
    (p : ℕ) (s : Str) → EndsClean (p ∷ []) → All (λ d. (48 ≤ d) × (d ≤ 57)) s → EndsClean (p ∷ s)
digits_clean_after p [] h k = h
digits_clean_after p (d ∷ s) h k = digits_clean d s k.0 k.1

EndsClean-append : (p : Str) (c : ℕ) (s : Str) → EndsClean (c ∷ s) → EndsClean (p ++ (c ∷ s))
EndsClean-append [] c s h = h
EndsClean-append (x ∷ []) c s h = h
EndsClean-append (x ∷ y ∷ p) c s h = EndsClean-append (y ∷ p) c s h

-- The line of an `END` frame, without its newline.
abbrev end_line : Status → ℕ → ℕ → Str
end_line s ms n =
    control_prefix ++ (str "END " ++ (as_str s ++ (32 ∷ (decimal ms ++ (32 ∷ decimal n)))))

abbrev IsPlain : ℕ → Type 0
IsPlain c = (c ≢ 10) × (c < 128)

as_str-plain : (s : Status) → All IsPlain (as_str s)
unfolding as_str
as_str-plain passed = omega arith
as_str-plain Status.failed = omega arith
as_str-plain skipped = omega arith

decimal-plain : (n : ℕ) → All IsPlain (decimal n)
decimal-plain n = All-map (decimal n) (λ c h. (omega arith, omega arith)) (decimal-All n)

end_line-plain : (s : Status) (ms n : ℕ) → All IsPlain (end_line s ms n)
end_line-plain s ms n = All-append IsPlain (control_prefix ++ str "END ") _ (omega arith) (
    All-append IsPlain (as_str s) _ (as_str-plain s) (
      (omega arith, omega arith),
      All-append IsPlain (decimal ms) _ (decimal-plain ms)
          ((omega arith, omega arith), decimal-plain n),
    ))

fields-clean : (ms n : ℕ) → EndsClean (32 ∷ (decimal ms ++ (32 ∷ decimal n)))
fields-clean ms n =
    EndsClean-append (32 ∷ decimal ms) 32 (decimal n)
      (digits_clean_after 32 (decimal n) refl (decimal-All n))

end_line-clean : (s : Status) (ms n : ℕ) → EndsClean (end_line s ms n)
unfolding as_str
end_line-clean passed ms n = fields-clean ms n
end_line-clean Status.failed ms n = fields-clean ms n
end_line-clean skipped ms n = fields-clean ms n

written_end :
    (s : Status) (ms : ℕ) (message rest : Str)
    → write_event (finish s ms message) ++ rest
      ≡ end_line s ms (length message) ++ (10 ∷ (message ++ rest))
unfolding write_event
written_end s ms message rest = simp append_assoc

module _ (u : Utf8) where
  read_start :
      (n rest : Str)
      → NoNewline n
      → EndsClean n
      → u.valid n ≡ true
      → read_line u (write_event (start n) ++ rest) ≡ value (control (start n)) rest
  unfolding write_event read_trimmed
  read_start n rest h e v =
      ap (λ t. read_line u (control_prefix ++ (str "START " ++ t))) (append_assoc n (10 ∷ []) rest)
      ∙ read_line-written u (control_prefix ++ (str "START " ++ n)) rest
          (All-append (λ c. c ≢ 10) (control_prefix ++ str "START ") n (omega arith) h)
          (EndsClean-space n e)
          (u.valid_append (control_prefix ++ str "START ") (n ++ (10 ∷ []))
            (u.valid_ascii (control_prefix ++ str "START ") (omega arith))
            (u.valid_append n (10 ∷ []) v (u.valid_ascii (10 ∷ []) (omega arith))))

  read_message-written :
      (s : Status) (ms : ℕ) (message rest : Str)
      → u.valid message ≡ true
      → read_message u (some (s, ms, length message)) (message ++ rest)
        ≡ value (control (finish s ms message)) rest
  unfolding read_message
  read_message-written s ms message rest v =
      let fits : leb (length message) (length (message ++ rest)) ≡ true =
        ground (arith, length-append message rest) in
      rw (fits, take-append message rest, drop-append message rest, u.lossy_valid message v)

  read_finish :
      (s : Status) (ms : ℕ) (message rest : Str)
      → ms < 2 ^ 64
      → length message < 2 ^ 64
      → u.valid message ≡ true
      → read_line u (write_event (finish s ms message) ++ rest)
        ≡ value (control (finish s ms message)) rest
  unfolding read_trimmed
  read_finish s ms message rest hm hl v =
      let n = length message in
      let plain = end_line-plain s ms n in
      ap (read_line u) (written_end s ms message rest)
      ∙ read_line-written u (end_line s ms n) (message ++ rest)
          (All-map (end_line s ms n) (λ c h. h.0) plain) (end_line-clean s ms n)
          (u.valid_append (end_line s ms n) (10 ∷ [])
            (u.valid_ascii (end_line s ms n) (All-map (end_line s ms n) (λ c h. h.1) plain))
            (u.valid_ascii (10 ∷ []) (omega arith)))
      ∙ ap (λ o. read_message u o (message ++ rest)) (end_fields-written s ms n hm hl)
      ∙ read_message-written s ms message rest v

  -- An event that a worker writes is read back by the runner as that control frame, whatever
  -- follows it on the stream, and the stream is left where the frame ends. The name of a started
  -- case must be valid text on one line that does not end in a carriage return; a message may be
  -- any valid text; the two numbers have 64 bits.
  pub read_line-write_event :
      (e : Event) (rest : Str)
      → IsSendable u e
      → read_line u (write_event e ++ rest) ≡ value (control e) rest
  read_line-write_event (start n) rest h = read_start n rest h.0 h.1 h.2
  read_line-write_event (finish s ms message) rest h = read_finish s ms message rest h.0 h.1 h.2

  -- A line of valid text that is not empty, does not begin with the control prefix, holds no newline
  -- and does not end in a carriage return is read as output, unchanged, and the stream is left behind
  -- its newline.
  pub read_line-output :
      (c : ℕ) (line rest : Str)
      → c ≢ 30
      → NoNewline (c ∷ line)
      → EndsClean (c ∷ line)
      → u.valid (c ∷ line) ≡ true
      → read_line u ((c ∷ line) ++ (10 ∷ rest)) ≡ value (output (c ∷ line)) rest
  unfolding read_trimmed
  read_line-output c line rest p n e v =
      read_line-written u (c ∷ line) rest n e
        (u.valid_append (c ∷ line) (10 ∷ []) v (u.valid_ascii (10 ∷ []) (omega arith)))
      ∙ ground arith

  -- What the runner requests of a worker.
  abbrev pub IsRequestable : Request → Type 0
  IsRequestable (run n) = NoNewline n × EndsClean n × (u.valid n ≡ true)
  IsRequestable quit = Unit {0}

  -- A request that the runner writes is the one that the worker reads, and the stream is left
  -- behind its line; the name of a case must be valid text on one line that does not end in a
  -- carriage return, and may hold spaces.
  pub read_request-write_request :
      (r : Request) (rest : Str)
      → IsRequestable r
      → read_request u (write_request r ++ rest) ≡ value (some r) rest
  unfolding write_request classify_request str_eq
  read_request-write_request (run n) rest h =
      ap (λ t. read_request u (str "RUN " ++ t)) (append_assoc n (10 ∷ []) rest)
      ∙ read_request-written u (str "RUN " ++ n) rest
          (All-append (λ c. c ≢ 10) (str "RUN ") n (omega arith) h.0) (EndsClean-space n h.1)
          (u.valid_append (str "RUN ") (n ++ (10 ∷ [])) (u.valid_ascii (str "RUN ") (omega arith))
            (u.valid_append n (10 ∷ []) h.2 (u.valid_ascii (10 ∷ []) (omega arith))))
  read_request-write_request quit rest h =
      read_request-written u (str "QUIT") rest (omega arith) refl
        (u.valid_ascii (str "QUIT" ++ (10 ∷ [])) (omega arith))
