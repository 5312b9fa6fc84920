-- ===== src/Tests/Engine.antt =====
-- A chunk of three bytes fetched onto the drive that writes two bytes at a time.
use relia_dl.Prelude.{
  ◌<◌, inr, ℕ, zero, suc, ◌+◌, ◌≡◌, refl, true, false, none, some, [], ◌∷◌, map, All, arith, max,
}
use relia_dl.Prelude.Int.{pos}
use relia_dl.Prelude.Results.{sub_block_corrupted, ok}
use relia_dl.Prelude.Text.{Text, strip, lstrip, is_space, lower, lower_code, strip_prefix, text_eq}
use relia_dl.Merkle.{Bytes}
use relia_dl.Models.{
  size, DownloadStatus, ChunkState, is_successful, DownloadState, new_chunk_state, mark_complete,
}
use relia_dl.Writer.{write_at, write_loop, sync, read_at}
use relia_dl.State.{save, swap_in, Codec, load}
use relia_dl.Engine.{
  check_response, is_range, equals, start_transfer, build_validator, receive_body, receive_blocks,
  receive_block, accept, write_out, finish_body, conclude, demote, revalidate_chunk, chunk_bytes,
  range_reads, constant_time_compare, normalize_hash, hex_only, all_hex, is_hex, without_prefix,
  Settings, Exchange, fetch_chunk, Attempt, Task, download_chunk_with_retries,
  record_verified_prefix, revalidate_chunks, checkpoint_interrupted,
}
use relia_dl.Engine.Fetched.{Fetched, fetch_chunk-Fetched}
use relia_dl.Engine.Prefix.{IsPrefix, IsLonger, record_verified_prefix-IsLonger}
use relia_dl.Engine.Attempts.{Ended, Raises, download-Ended}
use relia_dl.Engine.Retried.{SameRange}
use relia_dl.Engine.Liveness.{IsOutage, IsDelivered, download-IsDelivered}
use relia_dl.Engine.Workers.{Request, Landed, run_requests, run_requests-Landed}
use relia_dl.Engine.Demoted.{AllDemoted, IsRested}
use relia_dl.Engine.Resumed.{AllRevalidated, revalidate-AllRevalidated, interrupted-IsResumable}
use relia_dl.Tests.Writer.{drive, drive-Laws, fresh}
use relia_dl.Tests.State.{renaming, empty_disk, session}

-- Digests that are a hexadecimal digit for the first byte.
abbrev digit : Bytes → Text
digit [] = 48 ∷ []
digit (b ∷ bs) = (48 + b) ∷ []

abbrev settings : Settings
settings = record {
  sub_blocks = [];
  sub_block_size = 2;
  write_buffer_bytes = 4096;
  if_range = false;
  sha256 = λ b. b;
  hexdigest = digit;
}

abbrev answer : Exchange
answer = Exchange.answered (record {
  status = 206;
  content_range = some (pos 2, pos 4);
  blocks = (5 ∷ []) ∷ (6 ∷ 7 ∷ []) ∷ [];
  broken = false;
})

abbrev three : ChunkState
three = new_chunk_state 0 2 4

fetch_chunk-Fetched_example :
    Fetched drive drive-Laws settings 0 three answer fresh
      (fetch_chunk drive settings none three answer fresh)
unfolding new_chunk_state
fetch_chunk-Fetched_example =
    fetch_chunk-Fetched drive drive-Laws settings none three answer fresh (omega arith)
      (omega arith)

record_verified_prefix-IsLonger_example :
    IsLonger 2 three none 1 (record_verified_prefix 2 three (sub_block_corrupted 1) none)
unfolding IsPrefix new_chunk_state
record_verified_prefix-IsLonger_example =
    record_verified_prefix-IsLonger 2 three 1 none (omega arith)

-- The first request finds no server, the second is answered.
abbrev requests : ℕ → Attempt
requests zero = record { selection = ok none; exchange = Exchange.unreachable }
requests (suc n) = record { selection = ok none; exchange = answer }

abbrev task : Task drive
task = record {
  chunk = three;
  verified_prefix = none;
  failed_mirrors = [];
  completed_bytes = pos 0;
  writer = fresh;
}

download-Ended_example :
    Ended drive drive-Laws settings
      (λ e. [])
      (Raises drive drive-Laws settings (λ e. []) requests)
      (max 1 3)
      0
      requests
      task
      (download_chunk_with_retries drive settings (λ e. []) 3 requests task)
unfolding IsPrefix new_chunk_state
download-Ended_example =
    download-Ended drive drive-Laws settings (λ e. []) 3 requests task (omega arith) (omega arith)

-- A session of one chunk whose bytes are still those of its digest.
abbrev resumed : DownloadState
resumed = record session { chunks = mark_complete (some (48 ∷ [])) (new_chunk_state 0 2 4) ∷ [] }

revalidate-AllRevalidated_example :
    AllRevalidated drive settings fresh resumed.chunks resumed.chunks
unfolding revalidate_chunks revalidate_chunk chunk_bytes range_reads read_at constant_time_compare
    normalize_hash hex_only all_hex is_hex without_prefix strip lstrip is_space lower lower_code
    strip_prefix text_eq new_chunk_state mark_complete is_successful
revalidate-AllRevalidated_example =
    revalidate-AllRevalidated drive settings fresh resumed resumed refl

-- JSON for one session.
abbrev after_interrupt : DownloadState
after_interrupt = record session {
  chunks = map demote session.chunks;
  status = DownloadStatus.cancelled;
}

abbrev one_session : Codec DownloadState
one_session = record {
  to_bytes = λ d. 123 ∷ 125 ∷ [];
  decode = λ b. some b;
  from_json = λ t. ok after_interrupt;
}

interrupted-IsResumable_example :
    let r =
      checkpoint_interrupted drive one_session true renaming DownloadStatus.cancelled session fresh
        empty_disk in
    (load one_session true true renaming r.3 ≡ (ok r.1, r.3))
    × (r.1 ≡ record session { chunks = r.1.chunks; status = DownloadStatus.cancelled })
    × AllDemoted session.chunks r.1.chunks
    × All IsRested r.1.chunks
    × (r.2.is_closed ≡ true)
unfolding checkpoint_interrupted sync save swap_in strip lstrip is_space
interrupted-IsResumable_example =
    interrupted-IsResumable drive one_session true true renaming renaming DownloadStatus.cancelled
      session fresh empty_disk ((123 ∷ 125 ∷ []), (125 ∷ []), 123, refl, refl, refl) refl

-- Another worker's chunk right behind.
abbrev behind : Request
behind = record { chunk = new_chunk_state 1 5 6; prefix = none; exchange = answer }

run_requests-Landed_example : Landed drive drive-Laws settings three none answer (53 ∷ []) (
    run_requests drive drive-Laws settings
      (behind ∷ [])
      (fetch_chunk drive settings none three answer fresh).1)
unfolding IsPrefix new_chunk_state fetch_chunk check_response is_range equals start_transfer
    build_validator receive_body receive_blocks receive_block accept write_out finish_body conclude
    size write_at write_loop
run_requests-Landed_example =
    run_requests-Landed drive drive-Laws settings three none answer (behind ∷ []) (53 ∷ []) fresh
      (omega arith) (omega arith) ((omega arith, inr (omega arith)), tt) refl

requests-IsOutage : (i : ℕ) → i < 1 → IsOutage (requests i)
requests-IsOutage zero h = record { mirror = none; chosen = refl; lost = refl }
requests-IsOutage (suc i) h = absurd (omega arith)

three_answered :
    (d : ChunkState)
    → SameRange three d
    → (digest : Text) × ((fetch_chunk drive settings none d answer fresh).0 ≡ ok digest)
unfolding new_chunk_state fetch_chunk check_response is_range equals start_transfer build_validator
    receive_body receive_blocks receive_block accept write_out finish_body conclude size write_at
    write_loop
three_answered d same = (53 ∷ [], rw (same.range_start, same.range_end, same.range_expected) refl)

download-IsDelivered_example :
    IsDelivered drive settings
      (λ e. [])
      1
      task
      (download_chunk_with_retries drive settings (λ e. []) 3 requests task)
unfolding new_chunk_state
download-IsDelivered_example =
    download-IsDelivered drive settings (λ e. []) 3 1 requests task (omega arith) refl
      requests-IsOutage (record { mirror = none; chosen = refl; answers = three_answered })
