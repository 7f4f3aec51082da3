-- ===== src/Message/Parsing.antt =====
-- `MESSAGE_Parsing` (ehub_message.c) ends, and handles the messages of a buffer one by one.
use fl.Device.{Device}
use fl.Base.Bytes.{le32, u32_at}
use fl.Kernel.{Kernel}
use fl.Message.{
  event_trb, register_read_completion, memory_write_completion, get_type, parse_loop,
  message_parsing, MessageType, is_known, roundup4, header_length, goes_on, handle,
  handle_event_trb, handle_register_read, handle_memory_read, handle_memory_write, fill_read,
}
use fl.Base.{
  ℕ, List, ◌<◌, ◌≤◌, ◌^◌, ◌++◌, length, ◌≡◌, true, some, take, ◌+◌, suc, arith, ◌==◌, false, ◌∷◌,
  zero, ap, refl, [], Bool-cases, ltb, inl, inr, drop, tests, ltb→lt, drop-append, length-append,
}

-- Every known message has a length, so the loop gets on.
pub get_type-grows : (w : ℕ) → is_known (get_type w).0 ≡ true → 12 ≤ roundup4 (get_type w).1
unfolding get_type
get_type-grows w h = ground arith

goes_on-known : (w : ℕ) (d : Device) → goes_on w d ≡ true → is_known (get_type w).0 ≡ true
goes_on-known w d h = ground arith

parse_loop_total :
    (k : Kernel) (fuel : ℕ) (buffer : List ℕ) (parsed total : ℕ) (d : Device)
    → total < fuel + parsed
    → parsed ≤ total
    → (d' : Device) × (parse_loop k fuel buffer parsed total d ≡ some d')
unfolding parse_loop
parse_loop_total k zero buffer parsed total d h p = absurd (omega arith)
parse_loop_total k (suc fuel) buffer parsed total d h p =
    let w = u32_at buffer in
    let size = roundup4 (get_type w).1 in
    elim (Bool-cases (ltb (length buffer) 4)) [
      | inl short ↦ rw short (_, refl)
      | inr long ↦ elim (Bool-cases (goes_on w d)) [
        | inr stops ↦ rw (long, stops) (_, refl)
        | inl on ↦ elim (Bool-cases (ltb (parsed + size) total)) [
          | inr over ↦ rw (long, on, over) (_, refl)
          | inl more ↦
              rw (long, on, more)
                (parse_loop_total k fuel (drop size buffer) (parsed + size) total
                  (handle k (get_type w).0 buffer d)
                  (omega (arith, get_type-grows w (goes_on-known w d on)))
                  (omega (tests, ltb→lt (parsed + size) total more)))
        ]
      ]
    ]

-- Parsing always ends, for any buffer, any claimed length and any device.
pub message_parsing_total :
    (k : Kernel) (buffer : List ℕ) (total : ℕ) (d : Device)
    → (d' : Device) × (message_parsing k buffer total d ≡ some d')
unfolding message_parsing
message_parsing_total k buffer total d =
    parse_loop_total k (suc total) buffer 0 total d (omega arith) (omega arith)

-- A message as the device sends it: three words, and what follows.
pub record Message : Type 0 where
  pub word : ℕ
  pub low : ℕ
  pub high : ℕ
  pub body : List ℕ

abbrev pub encode : Message → List ℕ
encode m = le32 m.word ++ le32 m.low ++ le32 m.high ++ m.body

-- The bytes that the handler of a message reads behind its header.
abbrev pub body_need : MessageType → ℕ → ℕ
body_need event_trb len = 16
body_need register_read_completion len = 4
body_need memory_write_completion len = len
body_need _ len = 0

-- A message that is whole: its words fit, its type is known, the body fills its length up to the
-- padding, and has what its handler reads.
pub record IsMessage (m : Message) : Type 0 where
  pub word_fits : m.word < 2 ^ 32
  pub low_fits : m.low < 2 ^ 32
  pub high_fits : m.high < 2 ^ 32
  pub is_message : is_known (get_type m.word).0 ≡ true
  pub fills : 12 + length m.body ≡ roundup4 (get_type m.word).1
  pub enough : body_need (get_type m.word).0 (header_length m.word) ≤ length m.body

-- The word of a known message is not zero.
pub word_nonzero : (w : ℕ) → is_known (get_type w).0 ≡ true → (w == 0) ≡ false
unfolding get_type
word_nonzero w h = ground arith

pub take-append_le : (n : ℕ) (xs ys : List ℕ) → n ≤ length xs → take n (xs ++ ys) ≡ take n xs
take-append_le zero xs ys h = refl
take-append_le (suc n) [] ys h = absurd (omega arith)
take-append_le (suc n) (x ∷ xs) ys h = ap (◌∷◌ x) (take-append_le n xs ys (omega arith))

pub u32_at-append : (xs ys : List ℕ) → 4 ≤ length xs → u32_at (xs ++ ys) ≡ u32_at xs
u32_at-append (a ∷ b ∷ c ∷ d ∷ xs) ys h = refl
u32_at-append (a ∷ b ∷ c ∷ []) ys h = absurd (omega arith)
u32_at-append (a ∷ b ∷ []) ys h = absurd (omega arith)
u32_at-append (a ∷ []) ys h = absurd (omega arith)
u32_at-append [] ys h = absurd (omega arith)

pub u32_at-encode :
    (m : Message) (rest : List ℕ) → m.word < 2 ^ 32 → u32_at (encode m ++ rest) ≡ m.word
u32_at-encode m rest h = omega arith

pub drop-encode :
    (m : Message) (rest : List ℕ)
    → IsMessage m
    → drop (roundup4 (get_type m.word).1) (encode m ++ rest) ≡ rest
drop-encode m rest v =
    let e : length (encode m) ≡ roundup4 (get_type m.word).1 = omega (arith, v.fills) in
    rw (← e) (drop-append (encode m) rest)

-- A handler looks at its own message only.
module _ (m : Message) (rest : List ℕ) (d : Device) where
  pub event-local :
      16 ≤ length m.body → handle_event_trb (encode m ++ rest) d ≡ handle_event_trb (encode m) d
  unfolding handle_event_trb
  event-local h = ground (arith, take-append_le 16 m.body rest, length-append m.body rest)

  pub register-local :
      4 ≤ length m.body
      → handle_register_read (encode m ++ rest) d ≡ handle_register_read (encode m) d
  unfolding handle_register_read
  register-local h = ground (arith, u32_at-append m.body rest, length-append m.body rest)

  pub write-local :
      m.word < 2 ^ 32
      → header_length m.word ≤ length m.body
      → handle_memory_write (encode m ++ rest) d ≡ handle_memory_write (encode m) d
  unfolding handle_memory_write
  write-local f h =
      let len = header_length (u32_at (encode m ++ rest)) in
      ground
        (arith, take-append_le len m.body rest, length-append m.body rest, u32_at-encode m rest f)

  pub read-local :
      (k : Kernel) → handle_memory_read k (encode m ++ rest) d ≡ handle_memory_read k (encode m) d
  unfolding handle_memory_read fill_read
  read-local k = ground (arith, length-append m.body rest)
