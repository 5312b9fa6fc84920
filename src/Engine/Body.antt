-- ===== src/Engine/Body.antt =====
-- The loop of _fetch_chunk over the blocks of a body, _build_validator and _digest_chunk_from_disk.
-- The throttle, the progress report and the measured round trip are left out. The blocks of the
-- write buffer are kept joined.
use relia_dl.Prelude.{
  ℕ, zero, suc, ◌+◌, ◌-◌, ◌/◌, min, Bool, false, Option, none, some, List, [], ◌∷◌, ◌++◌, length,
  drop, ltb, leb, ◌==◌, ◌&&◌, if◌then◌else◌,
}
use relia_dl.Prelude.Int.{ℤ, pos, negsuc, pos_part}
use relia_dl.Prelude.Results.{
  Error, Result, ok, err, network_error, http_error, sub_block_corrupted, ◌>>=◌,
}
use relia_dl.Prelude.Text.{Text}
use relia_dl.Merkle.{Bytes}
use relia_dl.Models.{ChunkState, size}
use relia_dl.Stream.{SubBlockStreamValidator, new_validator, update}
use relia_dl.Writer.{Os, SparseFileWriter, write_at, read_at}

-- A response: its status, its Content-Range as parsed, the blocks of its body, and whether the
-- transport fails after them.
pub record Response : Type 0 where
  pub status : ℕ
  pub content_range : Option (ℤ × ℤ)
  pub blocks : List Bytes
  pub broken : Bool

-- A request: httpx raises, or there is a response.
pub data Exchange : Type 0 where
  unreachable : Exchange
  answered : Response → Exchange

-- What a request needs of the engine: the digests of the sub-blocks, their size, the size of the
-- write buffer, whether the session has an If-Range validator, and the digest of the session's
-- algorithm.
pub record Settings : Type 0 where
  pub sub_blocks : List Text
  pub sub_block_size : ℕ
  pub write_buffer_bytes : ℕ
  pub if_range : Bool
  pub sha256 : Bytes → Bytes
  pub hexdigest : Bytes → Text

abbrev pub revalidate_read_size : ℕ
revalidate_read_size = 1048576

-- `an int == a natural number`
unfoldable pub equals : ℤ → ℕ → Bool
equals (pos n) m = n == m
equals (negsuc n) m = false

unfoldable pub is_range : Option (ℤ × ℤ) → ℕ → ℕ → Bool
is_range none first last = false
is_range (some r) first last = equals r.0 first && equals r.1 last

-- _build_validator
unfoldable pub build_validator : Settings → ℕ → Option SubBlockStreamValidator
build_validator s resume_at = elim s.sub_blocks [
  | [] ↦ none
  | d ∷ ds ↦
      some (new_validator (drop (resume_at / s.sub_block_size) (d ∷ ds)) s.sub_block_size none)
]

module _ (os : Os) where
  -- The local variables of _fetch_chunk.
  pub record Transfer : Type 0 where
    pub writer : SparseFileWriter os
    pub hashed : Bytes
    pub validator : Option SubBlockStreamValidator
    pub buffer : Bytes
    pub buffered : ℕ
    pub buffer_start : ℕ
    pub offset : ℕ

  -- What a call of write_at leaves of a transfer.
  abbrev pub after_write : Transfer → Result ℕ × SparseFileWriter os → Result (Unit {0}) × Transfer
  after_write t (ok n, w) = (ok tt, record t { writer = w })
  after_write t (err e, w) = (err e, record t { writer = w })

  unfoldable pub write_out : ℕ → Bytes → Transfer → Result (Unit {0}) × Transfer
  write_out start bytes t = after_write t (write_at os (pos start) bytes t.writer)

  -- The exception of a bad sub-block, after the bytes in hand are written.
  abbrev pub still_corrupted : Error → Result (Unit {0}) × Transfer → Result (Unit {0}) × Transfer
  still_corrupted e (ok done, t) = (err e, t)
  still_corrupted e (err f, t) = (err f, t)

  abbrev pub emptied : Result (Unit {0}) × Transfer → Result (Unit {0}) × Transfer
  emptied (ok done, t) = (ok tt, record t { buffer = []; buffer_start = t.offset; buffered = 0 })
  emptied (err e, t) = (err e, t)

  -- A block that passed: into the buffer, which is written when it is full.
  unfoldable pub accept : ℕ → Bytes → Transfer → Result (Unit {0}) × Transfer
  accept threshold bytes t =
      let u = record t {
        buffer = t.buffer ++ bytes;
        buffered = t.buffered + length bytes;
        offset = t.offset + length bytes;
      } in
      if leb threshold u.buffered then emptied (write_out u.buffer_start u.buffer u) else (ok tt, u)

  -- The outcome of validator.update.
  abbrev pub validated :
      ℕ → Bytes → Transfer → Result (ℕ × SubBlockStreamValidator) → Result (Unit {0}) × Transfer
  validated threshold bytes t (ok r) = accept threshold bytes (record t { validator = some r.1 })
  validated threshold bytes t (err (sub_block_corrupted block)) =
      still_corrupted (sub_block_corrupted block) (write_out t.buffer_start (t.buffer ++ bytes) t)
  validated threshold bytes t (err e) = (err e, t)

  abbrev pub checked :
      Settings
      → ℕ
      → Bytes
      → Transfer
      → Option SubBlockStreamValidator
      → Result (Unit {0}) × Transfer
  checked s threshold bytes t none = accept threshold bytes t
  checked s threshold bytes t (some v) = validated threshold bytes t (update s.sha256 bytes v)

  -- The body of `async for data in response.aiter_raw()`.
  unfoldable pub receive_block :
      Settings → ℕ → ChunkState → Bytes → Transfer → Result (Unit {0}) × Transfer
  receive_block s threshold c bytes t =
      if ltb (c.end_byte + 1) (t.offset + length bytes)
      then (err (http_error false), t)
      else checked s threshold bytes (record t { hashed = t.hashed ++ bytes }) t.validator

  abbrev pub proceed :
      Result (Unit {0}) × Transfer
      → (Transfer → Result (Unit {0}) × Transfer)
      → Result (Unit {0}) × Transfer
  proceed (ok done, t) next = next t
  proceed (err e, t) next = (err e, t)

  unfoldable pub receive_blocks :
      Settings → ℕ → ChunkState → List Bytes → Transfer → Result (Unit {0}) × Transfer
  receive_blocks s threshold c [] t = (ok tt, t)
  receive_blocks s threshold c (b ∷ bs) t =
      proceed (receive_block s threshold c b t) (receive_blocks s threshold c bs)

  -- The end of the body: the transport fails, or the rest of the buffer is written.
  unfoldable pub finish_body : Bool → Transfer → Result (Unit {0}) × Transfer
  finish_body broken t =
      if broken
      then (err network_error, t)
      else if ltb 0 t.buffered
      then write_out t.buffer_start t.buffer t
      else (ok tt, t)

  -- _digest_chunk_from_disk: the bytes that its reads give, on fuel; each round asks for one byte
  -- at least.
  unfoldable pub read_back : ℕ → ℕ → ℕ → SparseFileWriter os → Result Bytes
  read_back zero remaining offset w = ok []
  read_back (suc fuel) remaining offset w =
      let span = min revalidate_read_size remaining in
      let rest = read_back fuel (remaining - span) (offset + span) w in
      if ltb 0 remaining
      then (read_at os (pos offset) (pos span) w >>= λ b. rest >>= λ bs. ok (b ++ bs))
      else ok []

  unfoldable pub digest_chunk_from_disk : Settings → ChunkState → SparseFileWriter os → Result Text
  digest_chunk_from_disk s c w =
      read_back (pos_part (size c)) (pos_part (size c)) c.start_byte w >>= λ b. ok (s.hexdigest b)
