-- ===== src/Engine/Causes.antt =====
-- Which exceptions are builtin, and which may be over at the next attempt, by their classes.
use relia_dl.Prelude.{ℕ, ◌≡◌, true, false}
use relia_dl.Prelude.Results.{
  Error, value_error, index_error, key_error, overflow_error, configuration_error, storage_error,
  disk_full, manifest_error, sub_block_corrupted, chunk_hash_mismatch, file_hash_mismatch,
  storage_permission, allocation_error, not_implemented, network_error, precondition_failed,
  range_not_supported, http_error, state_not_found, state_corrupted,
}
use relia_dl.Engine.Errors.{is_retryable}
use relia_dl.Engine.Retry.{is_reliadl}

-- The builtin exceptions; every other one is a class of the program's exceptions.py.
pub data IsBuiltin : Error → Type 0 where
  value : IsBuiltin value_error
  index : IsBuiltin index_error
  key : IsBuiltin key_error
  overflow : IsBuiltin overflow_error
  unimplemented : IsBuiltin not_implemented

-- The exceptions that may be over at the next attempt.
pub data IsTransient : Error → Type 0 where
  corrupted_block : {block : ℕ} → IsTransient (sub_block_corrupted block)
  corrupted_chunk : IsTransient chunk_hash_mismatch
  network : IsTransient network_error
  server_problem : IsTransient (http_error true)

-- No transient exception is missed.
pub IsTransient-is_retryable : (e : Error) → is_retryable e ≡ false → ¬ IsTransient e
unfolding is_retryable
IsTransient-is_retryable e h IsTransient.corrupted_block = absurd (cc)
IsTransient-is_retryable e h IsTransient.corrupted_chunk = absurd (cc)
IsTransient-is_retryable e h IsTransient.network = absurd (cc)
IsTransient-is_retryable e h IsTransient.server_problem = absurd (cc)

pub is_retryable-IsTransient : (e : Error) → is_retryable e ≡ true → IsTransient e
unfolding is_retryable
is_retryable-IsTransient (sub_block_corrupted block) h = IsTransient.corrupted_block
is_retryable-IsTransient chunk_hash_mismatch h = IsTransient.corrupted_chunk
is_retryable-IsTransient network_error h = IsTransient.network
is_retryable-IsTransient (http_error true) h = IsTransient.server_problem
is_retryable-IsTransient (http_error false) h = absurd (cc)
is_retryable-IsTransient value_error h = absurd (cc)
is_retryable-IsTransient index_error h = absurd (cc)
is_retryable-IsTransient key_error h = absurd (cc)
is_retryable-IsTransient overflow_error h = absurd (cc)
is_retryable-IsTransient not_implemented h = absurd (cc)
is_retryable-IsTransient (configuration_error name) h = absurd (cc)
is_retryable-IsTransient storage_error h = absurd (cc)
is_retryable-IsTransient disk_full h = absurd (cc)
is_retryable-IsTransient manifest_error h = absurd (cc)
is_retryable-IsTransient file_hash_mismatch h = absurd (cc)
is_retryable-IsTransient storage_permission h = absurd (cc)
is_retryable-IsTransient allocation_error h = absurd (cc)
is_retryable-IsTransient precondition_failed h = absurd (cc)
is_retryable-IsTransient range_not_supported h = absurd (cc)
is_retryable-IsTransient state_not_found h = absurd (cc)
is_retryable-IsTransient state_corrupted h = absurd (cc)

-- The program's own exceptions are not builtin.
pub is_reliadl-not_IsBuiltin : (e : Error) → is_reliadl e ≡ true → ¬ IsBuiltin e
unfolding is_reliadl
is_reliadl-not_IsBuiltin e h IsBuiltin.value = absurd (cc)
is_reliadl-not_IsBuiltin e h IsBuiltin.index = absurd (cc)
is_reliadl-not_IsBuiltin e h IsBuiltin.key = absurd (cc)
is_reliadl-not_IsBuiltin e h IsBuiltin.overflow = absurd (cc)
is_reliadl-not_IsBuiltin e h IsBuiltin.unimplemented = absurd (cc)

-- Only builtin exceptions are not the program's own.
pub is_reliadl-IsBuiltin : (e : Error) → is_reliadl e ≡ false → IsBuiltin e
unfolding is_reliadl
is_reliadl-IsBuiltin value_error h = IsBuiltin.value
is_reliadl-IsBuiltin index_error h = IsBuiltin.index
is_reliadl-IsBuiltin key_error h = IsBuiltin.key
is_reliadl-IsBuiltin overflow_error h = IsBuiltin.overflow
is_reliadl-IsBuiltin not_implemented h = IsBuiltin.unimplemented
is_reliadl-IsBuiltin (configuration_error name) h = absurd (cc)
is_reliadl-IsBuiltin storage_error h = absurd (cc)
is_reliadl-IsBuiltin disk_full h = absurd (cc)
is_reliadl-IsBuiltin manifest_error h = absurd (cc)
is_reliadl-IsBuiltin (sub_block_corrupted block) h = absurd (cc)
is_reliadl-IsBuiltin chunk_hash_mismatch h = absurd (cc)
is_reliadl-IsBuiltin file_hash_mismatch h = absurd (cc)
is_reliadl-IsBuiltin storage_permission h = absurd (cc)
is_reliadl-IsBuiltin allocation_error h = absurd (cc)
is_reliadl-IsBuiltin network_error h = absurd (cc)
is_reliadl-IsBuiltin precondition_failed h = absurd (cc)
is_reliadl-IsBuiltin range_not_supported h = absurd (cc)
is_reliadl-IsBuiltin (http_error retryable) h = absurd (cc)
is_reliadl-IsBuiltin state_not_found h = absurd (cc)
is_reliadl-IsBuiltin state_corrupted h = absurd (cc)
