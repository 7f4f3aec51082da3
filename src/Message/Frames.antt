-- ===== src/Message/Frames.antt =====
-- `MESSAGE_Parsing` (ehub_message.c) against the stream of messages that the device sent.
use fl.Base.Bytes.{u32_at}
use fl.Base.Int.{is_neg}
use fl.Device.{Device, error_check}
use fl.Message.Parsing.{
  Message, encode, IsMessage, body_need, event-local, u32_at-encode, register-local, write-local,
  drop-encode, read-local, word_nonzero,
}
use fl.Kernel.{Kernel}
use fl.Base.{
  ℕ, List, ◌∷◌, ◌≡◌, ◌<◌, [], if◌then◌else◌, ◌++◌, suc, ◌≢◌, ◌^◌, ◌⊎◌, ◌≤◌, some, length, ltb, ◌+◌,
  refl, false, arith, inl, inr, Bool-cases, zero, true, ap, length-append,
}
use fl.Message.{
  event_trb, register_read_completion, memory_write_completion, memory_read_completion, unknown,
  handle, parse_loop, roundup4, MessageType, get_type, header_length, message_parsing,
}

abbrev pub size : Message → ℕ
size m = roundup4 (get_type m.word).1

-- A message given to its handler.
abbrev pub handle_message : Kernel → Message → Device → Device
handle_message k m d = handle k (get_type m.word).0 (encode m) d

handle-local :
    (k : Kernel) (t : MessageType) (m : Message) (rest : List ℕ) (d : Device)
    → m.word < 2 ^ 32
    → body_need t (header_length m.word) ≤ length m.body
    → handle k t (encode m ++ rest) d ≡ handle k t (encode m) d
unfolding handle
handle-local k event_trb m rest d f h = event-local m rest d h
handle-local k register_read_completion m rest d f h = register-local m rest d h
handle-local k memory_write_completion m rest d f h = write-local m rest d f h
handle-local k memory_read_completion m rest d f h = read-local m rest d k
handle-local k unknown m rest d f h = refl

-- The messages in a row, and what follows the last one.
abbrev pub encode_all : List Message → List ℕ → List ℕ
encode_all [] pad = pad
encode_all (m ∷ ms) pad = encode m ++ encode_all ms pad

abbrev pub AllMessages : List Message → Type 0
AllMessages [] = Unit {0}
AllMessages (m ∷ ms) = IsMessage m × AllMessages ms

-- The specification: each message is handled in turn, as long as the device is usable.
pub handle_all : Kernel → List Message → Device → Device
handle_all k [] d = d
handle_all k (m ∷ ms) d =
    let rest = handle_all k ms (handle_message k m d) in if is_neg (error_check d) then d else rest

-- A buffer ends with its last message, or with a zero word.
abbrev pub Ends : List Message → List ℕ → Type 0
Ends ms pad = ((pad ≡ []) × (ms ≢ [])) ⊎ ((4 ≤ length pad) × (u32_at pad ≡ 0))

-- One round of the loop at a whole message.
parse_step :
    (k : Kernel) (fuel : ℕ) (m : Message) (rest : List ℕ) (parsed total : ℕ) (d : Device)
    → IsMessage m
    → parse_loop k (suc fuel) (encode m ++ rest) parsed total d ≡ (
        if is_neg (error_check d)
        then some d
        else if ltb (parsed + size m) total
        then parse_loop k fuel rest (parsed + size m) total (handle_message k m d)
        else some (handle_message k m d))
unfolding parse_loop
parse_step k fuel m rest parsed total d v =
    let long : ltb (length (encode m ++ rest)) 4 ≡ false = ground arith in
    rw
      (
        long,
        u32_at-encode m rest v.word_fits,
        drop-encode m rest v,
        handle-local k (get_type m.word).0 m rest d v.word_fits v.enough,
        word_nonzero m.word v.is_message,
        v.is_message,
      )
      (elim (Bool-cases (is_neg (error_check d))) [ inl e ↦ rw e | inr e ↦ rw e ])

parse_end :
    (k : Kernel) (fuel : ℕ) (pad : List ℕ) (parsed total : ℕ) (d : Device)
    → 4 ≤ length pad
    → u32_at pad ≡ 0
    → parse_loop k (suc fuel) pad parsed total d ≡ some d
unfolding parse_loop
parse_end k fuel pad parsed total d h z =
    let long : ltb (length pad) 4 ≡ false = ground arith in rw (long, z)

length_pad : (ms : List Message) (pad : List ℕ) → 4 ≤ length pad → 0 < length (encode_all ms pad)
length_pad [] pad h = omega arith
length_pad (m ∷ ms) pad h = omega arith

-- The last message of the buffer.
parse_last :
    (k : Kernel) (fuel : ℕ) (m : Message) (parsed total : ℕ) (d : Device)
    → IsMessage m
    → parsed + length (encode m) ≡ total
    → parse_loop k (suc fuel) (encode m ++ []) parsed total d ≡ some (handle_all k (m ∷ []) d)
unfolding handle_all
parse_last k fuel m parsed total d v t =
    let over : ltb (parsed + size m) total ≡ false = ground (arith, v.fills) in
    rw (parse_step k fuel m [] parsed total d v, over)
      (elim (Bool-cases (is_neg (error_check d))) [ inl e ↦ rw e | inr e ↦ rw e ])

-- A message with more behind it.
parse_more :
    (k : Kernel) (fuel : ℕ) (m : Message) (ms : List Message) (rest : List ℕ) (parsed total : ℕ)
    (d : Device)
    → IsMessage m
    → parsed + length (encode m ++ rest) ≡ total
    → 0 < length rest
    → parse_loop k fuel rest (parsed + size m) total (handle_message k m d)
      ≡ some (handle_all k ms (handle_message k m d))
    → parse_loop k (suc fuel) (encode m ++ rest) parsed total d ≡ some (handle_all k (m ∷ ms) d)
unfolding handle_all
parse_more k fuel m ms rest parsed total d v t r ih =
    let more : ltb (parsed + size m) total ≡ true =
      ground (arith, v.fills, length-append m.body rest) in
    rw (parse_step k fuel m rest parsed total d v, more, ih)
      (elim (Bool-cases (is_neg (error_check d))) [ inl e ↦ rw e | inr e ↦ rw e ])

parse_frames :
    (k : Kernel) (fuel : ℕ) (ms : List Message) (pad : List ℕ) (parsed total : ℕ) (d : Device)
    → AllMessages ms
    → Ends ms pad
    → parsed + length (encode_all ms pad) ≡ total
    → length (encode_all ms pad) < fuel
    → parse_loop k fuel (encode_all ms pad) parsed total d ≡ some (handle_all k ms d)
unfolding handle_all
parse_frames k zero ms pad parsed total d v e t f = absurd (omega arith)
parse_frames k (suc fuel) [] pad parsed total d v (inl e) t f = absurd (e.1 refl)
parse_frames k (suc fuel) [] pad parsed total d v (inr e) t f =
    parse_end k fuel pad parsed total d e.0 e.1
parse_frames k (suc fuel) (m ∷ []) pad parsed total d v (inl e) t f = rw (e.0) (
    parse_last k fuel m parsed total d v.0 (omega (arith, ap length e.0, length-append m.body pad)))
parse_frames k (suc fuel) (m ∷ n ∷ ms) pad parsed total d v (inl e) t f =
    parse_more k fuel m (n ∷ ms) (encode_all (n ∷ ms) pad) parsed total d v.0 t (omega arith) (
      parse_frames k fuel (n ∷ ms) pad (parsed + size m) total (handle_message k m d) v.1
        (inl (e.0, λ q. cc))
        (ground (arith, v.0.fills, length-append m.body (encode_all (n ∷ ms) pad)))
        (omega (arith, length-append m.body (encode_all (n ∷ ms) pad))))
parse_frames k (suc fuel) (m ∷ ms) pad parsed total d v (inr e) t f =
    parse_more k fuel m ms (encode_all ms pad) parsed total d v.0 t (length_pad ms pad e.0) (
      parse_frames k fuel ms pad (parsed + size m) total (handle_message k m d) v.1 (inr e)
        (ground (arith, v.0.fills, length-append m.body (encode_all ms pad)))
        (omega (arith, length-append m.body (encode_all ms pad))))

-- A buffer of whole messages, with nothing behind them or a zero word, is parsed exactly: each
-- message reaches its handler once, in order, with its own bytes; after an error no more do.
pub message_parsing_frames :
    (k : Kernel) (ms : List Message) (pad : List ℕ) (d : Device)
    → AllMessages ms
    → Ends ms pad
    → message_parsing k (encode_all ms pad) (length (encode_all ms pad)) d
      ≡ some (handle_all k ms d)
unfolding message_parsing
message_parsing_frames k ms pad d v e =
    parse_frames k _ ms pad 0 (length (encode_all ms pad)) d v e (omega arith) (omega arith)
