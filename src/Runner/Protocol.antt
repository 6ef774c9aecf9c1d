-- ===== src/Runner/Protocol.antt =====
-- crates/idakit-runner/src/protocol.rs: the line-framed protocol between the runner and a worker.
--
-- A stream is the list of the bytes that are still to be read, and a write is the list of the
-- bytes that it appends. What the standard library says of UTF-8 is a parameter: `valid` is the
-- check that `read_line` makes, `lossy` is `String::from_utf8_lossy`. Any other failure of the
-- underlying pipe is not modelled here.
pub mod Lines
pub mod RoundTrip
use idakit.Base.{
  ℕ, zero, suc, ◌^◌, Bool, true, false, ◌&&◌, ◌||◌, Option, none, some, List, [], ◌∷◌, ◌++◌, ◌≡◌,
  Str, str, str_eq, is_empty, length, take, drop, if◌then◌else◌, ◌==◌, leb, ltb, decimal, parse_u64,
  All, ◌<◌,
}

pub record Utf8 : Type 0 where
  pub valid : Str → Bool
  pub lossy : Str → Str
  -- Text made of ASCII bytes is valid, valid texts append, and a valid text is kept.
  pub valid_ascii : (s : Str) → All (λ c. c < 128) s → valid s ≡ true
  pub valid_append : (s t : Str) → valid s ≡ true → valid t ≡ true → valid (s ++ t) ≡ true
  pub lossy_valid : (s : Str) → valid s ≡ true → lossy s ≡ s

-- `BufRead::read_line` before its check: the bytes up to and with the next newline, or up to the
-- end of input, and the bytes behind them.
unfoldable pub split_line : Str → Str × Str
split_line [] = ([], [])
split_line (c ∷ cs) =
    let rest = split_line cs in if c == 10 then (10 ∷ [], cs) else (c ∷ rest.0, rest.1)

abbrev pub is_line_end : ℕ → Bool
is_line_end c = c == 13 || c == 10

-- `trim_end_matches(['\r', '\n'])`.
unfoldable pub trim_end : Str → Str
trim_end [] = []
trim_end (c ∷ cs) = let t = trim_end cs in if is_empty t && is_line_end c then [] else c ∷ t

-- `strip_prefix`.
unfoldable pub strip_prefix : Str → Str → Option Str
strip_prefix [] s = some s
strip_prefix (p ∷ ps) [] = none
strip_prefix (p ∷ ps) (c ∷ cs) = if p == c then strip_prefix ps cs else none

-- `split_once(' ')`, also one step of `splitn(3, ' ')`: the part before the first space, and the
-- rest if there is a space.
unfoldable pub split_space : Str → Str × Option Str
split_space [] = ([], none)
split_space (c ∷ cs) =
    let rest = split_space cs in if c == 32 then ([], some cs) else (c ∷ rest.0, rest.1)

pub data Request : Type 0 where
  run : Str → Request
  quit : Request

-- `Request::write_to`.
unfoldable pub write_request : Request → Str
write_request (run n) = str "RUN " ++ (n ++ (10 ∷ []))
write_request quit = str "QUIT" ++ (10 ∷ [])

-- The request that a trimmed line holds.
unfoldable pub classify_request : Str → Option Request
unfolding split_space
classify_request line = elim (split_space line).1 [
  | some n ↦ if str_eq (split_space line).0 (str "RUN") then some (run n) else quit_line
  | none ↦ quit_line
]
  where
    quit_line : Option Request
    quit_line = if str_eq line (str "QUIT") then some quit else none

-- What a read yields: the end of input, an error of kind `InvalidData` or `UnexpectedEof`, or a
-- value with what is left of the stream.
pub data Read (A : Type 0) : Type 0 where
  end : Read A
  failed : Read A
  value : A → Str → Read A

pub data Status : Type 0 where
  passed failed skipped : Status

-- `Status::as_str` and `Status::parse`.
unfoldable pub as_str : Status → Str
as_str passed = str "ok"
as_str Status.failed = str "fail"
as_str skipped = str "skip"

unfoldable pub parse_status : Str → Option Status
parse_status s =
    if str_eq s (str "ok")
    then some passed
    else if str_eq s (str "fail")
    then some Status.failed
    else if str_eq s (str "skip")
    then some skipped
    else none

pub data Event : Type 0 where
  start : Str → Event
  -- status, millis, message
  finish : Status → ℕ → Str → Event

pub data Line : Type 0 where
  control : Event → Line
  output : Str → Line

-- `CONTROL_PREFIX`.
abbrev pub control_prefix : Str
control_prefix = 30 ∷ []

-- `Event::write_to`.
unfoldable pub write_event : Event → Str
unfolding as_str
write_event (start n) = control_prefix ++ (str "START " ++ (n ++ (10 ∷ [])))
write_event (finish s ms message) =
    control_prefix
    ++ (str "END "
        ++ (as_str s ++ (32 ∷ (decimal ms ++ (32 ∷ (decimal (length message) ++ (10 ∷ message)))))))

-- The fields of an `END` line, in the order in which they are read: status, millis, length.
unfoldable pub end_length : Status → ℕ → Option ℕ → Option (Status × ℕ × ℕ)
end_length s ms none = none
end_length s ms (some n) = some (s, ms, n)

unfoldable pub end_millis : Status → Option ℕ → Option Str → Option (Status × ℕ × ℕ)
unfolding end_length
end_millis s (some ms) (some t) = end_length s ms (parse_u64 t)
end_millis s ms t = none

unfoldable pub end_rest : Status → Option Str → Option (Status × ℕ × ℕ)
unfolding end_millis
end_rest s none = none
end_rest s (some t) = end_millis s (parse_u64 (split_space t).0) (split_space t).1

unfoldable pub end_status : Option Status → Option Str → Option (Status × ℕ × ℕ)
unfolding end_rest
end_status none t = none
end_status (some s) t = end_rest s t

unfoldable pub end_fields : Str → Option (Status × ℕ × ℕ)
unfolding end_status
end_fields t = end_status (parse_status (split_space t).0) (split_space t).1

module _ (u : Utf8) where
  open u use {valid, lossy}

  -- `Request::read_from`; a line that holds no request reads as `None`, as the end of input does.
  unfoldable pub read_request : Str → Read (Option Request)
  unfolding split_line classify_request trim_end
  read_request [] = value none []
  read_request (c ∷ cs) =
      if valid (split_line (c ∷ cs)).0
      then value (classify_request (trim_end (split_line (c ∷ cs)).0)) (split_line (c ∷ cs)).1
      else failed

  -- `read_exact` of the message and what follows it.
  unfoldable pub read_message : Option (Status × ℕ × ℕ) → Str → Read Line
  read_message none rest = failed
  read_message (some (s, ms, n)) rest =
      if leb n (length rest)
      then value (control (finish s ms (lossy (take n rest)))) (drop n rest)
      else failed

  -- A control frame, the prefix taken off, with the stream behind its line.
  unfoldable pub read_end : Option Str → Str → Read Line
  unfolding read_message
  read_end none rest = failed
  read_end (some t) rest = read_message (end_fields t) rest

  unfoldable pub read_frame : Str → Str → Read Line
  unfolding read_end strip_prefix
  read_frame frame rest = elim (strip_prefix (str "START ") frame) [
    | some n ↦ value (control (start n)) rest
    | none ↦ read_end (strip_prefix (str "END ") frame) rest
  ]

  unfoldable pub read_trimmed : Str → Str → Read Line
  unfolding read_frame strip_prefix
  read_trimmed line rest = elim (strip_prefix control_prefix line) [
    | none ↦ value (output line) rest
    | some frame ↦ read_frame frame rest
  ]

  -- `read_line` of the protocol: one line, classified.
  unfoldable pub read_line : Str → Read Line
  unfolding split_line trim_end read_trimmed end_fields split_space parse_status
  read_line [] = end
  read_line (c ∷ cs) =
      if valid (split_line (c ∷ cs)).0
      then read_trimmed (trim_end (split_line (c ∷ cs)).0) (split_line (c ∷ cs)).1
      else failed
