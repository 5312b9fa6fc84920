-- ===== src/Engine/Workers.antt =====
-- Requests of several workers on one part file, each for its own chunk.
use relia_dl.Prelude.{
  ℕ, ◌+◌, ◌-◌, ◌≤◌, ◌<◌, ◌≡◌, ◌⊎◌, inl, inr, refl, ◌∙◌, true, Option, List, [], ◌∷◌, length, arith,
  ==_iff, ==_true, le→leb, All, ◌==◌,
}
use relia_dl.Prelude.Int.{sub_ℕ}
use relia_dl.Prelude.Results.{ok}
use relia_dl.Prelude.Text.{Text}
use relia_dl.Models.{ChunkState, size}
use relia_dl.Stream.Segments.{concat}
use relia_dl.Writer.{Os, Laws, SparseFileWriter}
use relia_dl.Writer.Loop.{Stored}
use relia_dl.Writer.Calls.{HasRoom}
use relia_dl.Engine.Body.{Settings, Exchange, Response, equals}
use relia_dl.Engine.Fetch.{fetch_chunk, resume_of}
use relia_dl.Engine.Prefix.{IsPrefix}
use relia_dl.Engine.Writes.{Within, Within-HasRoom}
use relia_dl.Engine.Fetched.{Fetched, Fetched-Within, fetch_chunk-Fetched}

-- A request: the chunk, its verified prefix, and what the server answers.
pub record Request : Type 0 where
  pub chunk : ChunkState
  pub prefix : Option ℕ
  pub exchange : Exchange

-- The two chunks have no byte in common, and the prefix of the second ends inside it.
abbrev pub IsOther : ChunkState → Request → Type 0
IsOther c r =
    IsPrefix r.chunk r.prefix
    × ((r.chunk.end_byte + 1 ≤ c.start_byte) ⊎ (c.end_byte + 1 ≤ r.chunk.start_byte))

sub_ℕ-equals : (a b n : ℕ) → b ≤ a → equals (sub_ℕ a b) n ≡ true → b + n ≡ a
unfolding equals
sub_ℕ-equals a b n h e =
    let same : ((a - b) == n) ≡ true = rw (le→leb b a h) at e in
    let count : a - b ≡ n = (==_iff (a - b) n).0 same in omega (arith, count)

module _ (os : Os) (laws : Laws os) (s : Settings) where
  -- Requests one after the other; what they give is not looked at.
  abbrev pub run_requests : List Request → SparseFileWriter os → SparseFileWriter os
  run_requests [] w = w
  run_requests (r ∷ rs) w = run_requests rs (fetch_chunk os s r.prefix r.chunk r.exchange w).1

  request-Within :
      (r : Request) (w : SparseFileWriter os)
      → HasRoom os w
      → IsPrefix r.chunk r.prefix
      → Within os laws r.chunk.start_byte
          (r.chunk.end_byte + 1)
          w
          (fetch_chunk os s r.prefix r.chunk r.exchange w).1
  unfolding IsPrefix
  request-Within r w room inside =
      Fetched-Within os laws s (resume_of r.prefix) r.chunk r.exchange w
        (fetch_chunk os s r.prefix r.chunk r.exchange w)
        (fetch_chunk-Fetched os laws s r.prefix r.chunk r.exchange w room inside)

  run_requests_apart :
      (c : ChunkState) (rs : List Request) (w : SparseFileWriter os) (j : ℕ)
      → HasRoom os w
      → All (IsOther c) rs
      → c.start_byte ≤ j
      → j < c.end_byte + 1
      → os.byte (run_requests rs w).file j ≡ os.byte w.file j
  run_requests_apart c [] w j room others low high = refl
  run_requests_apart c (r ∷ rs) w j room others low high =
      let v = (fetch_chunk os s r.prefix r.chunk r.exchange w).1 in
      let h = request-Within r w room others.0.0 in
      run_requests_apart c rs v j
        (Within-HasRoom os laws r.chunk.start_byte (r.chunk.end_byte + 1) w v h room) others.1 low
        high
      ∙ h.outside j
          (elim others.0.1 [ inl before ↦ inr (omega arith) | inr after ↦ inl (omega arith) ])

  -- The bytes of an answer fill the chunk from its verified prefix on.
  pub record Landed (c : ChunkState) (p : Option ℕ) (x : Exchange) (digest : Text)
      (w : SparseFileWriter os) : Type 0 where
    pub answer : Response
    pub answered : x ≡ Exchange.answered answer
    pub filled : c.start_byte + resume_of p + length (concat answer.blocks) ≡ c.end_byte + 1
    pub stored :
        Stored os
          (concat answer.blocks)
          (c.start_byte + resume_of p)
          (length (concat answer.blocks))
          w.file
    pub own_digest : resume_of p ≡ 0 → digest ≡ s.hexdigest (concat answer.blocks)

  -- When a request for a chunk gave a digest, then requests of other workers, for chunks that have
  -- no byte in common with it, whatever the servers send and whether they succeed or fail, leave
  -- its bytes: the part file still holds the answer's blocks from the chunk's verified prefix to
  -- its last byte, and the digest is theirs when there was no prefix. The file has room for what
  -- the writer is for, and the verified prefixes end inside their chunks.
  pub run_requests-Landed :
      (c : ChunkState) (p : Option ℕ) (x : Exchange) (rs : List Request) (digest : Text)
      (w : SparseFileWriter os)
      → HasRoom os w
      → IsPrefix c p
      → All (IsOther c) rs
      → (fetch_chunk os s p c x w).0 ≡ ok digest
      → Landed c p x digest (run_requests rs (fetch_chunk os s p c x w).1)
  unfolding Stored IsPrefix size
  run_requests-Landed c p x rs digest w room inside others good =
      elim (fetch_chunk-Fetched os laws s p c x w room inside) [
        | Fetched.failed e bad frame ↦ absurd (cc)
        | Fetched.fetched answer d from run there sized hashed same frame ↦
            let v = (fetch_chunk os s p c x w).1 in
            let body = concat answer.blocks in
            let fills =
              sub_ℕ-equals (c.end_byte + 1) c.start_byte (resume_of p + length body) (omega arith)
                sized in
            record {
              answer = answer;
              answered = from;
              filled = omega (arith, fills);
              stored = λ i h.
                  run_requests_apart c rs v (c.start_byte + resume_of p + i)
                    (Within-HasRoom os laws c.start_byte (c.end_byte + 1) w v frame room) others
                    (omega arith) (omega (arith, fills))
                  ∙ there i h;
              own_digest = λ none_verified.
                  let whole : ok (s.hexdigest body) ≡ ok d =
                    rw (==_true (resume_of p) 0 none_verified) at hashed in
                  cc;
            }
      ]
