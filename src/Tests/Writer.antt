-- ===== src/Tests/Writer.antt =====
-- A writer on a drive that writes two bytes at a time.
use relia_dl.Prelude.{
  Bool-cases, ℕ, zero, suc, ◌+◌, ◌-◌, ◌≤◌, ◌<◌, ◌≡◌, ◌⊎◌, ◌&&◌, inl, inr, refl, sym, ap, ◌∙◌, true,
  false, Option, none, some, List, [], ◌∷◌, length, get_elem?, min, max, ltb, leb, arith,
  if◌then◌else◌, dec_lt, le→leb, lt→ltb, lt→leb_false, le→ltb_false,
}
use relia_dl.Prelude.Int.{pos}
use relia_dl.Merkle.{Bytes}
use relia_dl.Writer.{
  Answer, Os, Laws, IsPwrite, AllocationStrategy, SparseFileWriter, write_at, write_loop, read_at,
}
use relia_dl.Writer.Ranges.{Piece, IsFrom, write_pieces, write_pieces-IsFrom}
use relia_dl.Prelude.Results.{err, storage_error}
use relia_dl.Writer.Calls.{IsRefused, Outcome, write_at-Outcome}
use relia_dl.Scheduler.{fixed_partition, cut, rounds}
use relia_dl.Engine.Whole.{fixed_partition-write_pieces}
use relia_dl.Writer.Reading.{Reading, read_at-write_pieces}

-- The bytes of a file by their places.
abbrev Disk : Type 0
Disk = ℕ × (ℕ → Option ℕ)

abbrev put : Bytes → ℕ → Disk → Disk
put d off f =
    (f.0, λ j. if leb off j && ltb j (off + min 2 (length d)) then get_elem? d (j - off) else f.1 j)

-- A byte and what follows it, nothing past the end.
abbrev before_end : Option ℕ → Bytes → Bytes
before_end none rest = []
before_end (some b) rest = b ∷ rest

abbrev fetch : ℕ → ℕ → Disk → Bytes
fetch zero off f = []
fetch (suc n) off f = before_end (f.1 off) (fetch n (suc off) f)

abbrev pub drive : Os
drive = record {
  File = Disk;
  size = λ f. f.0;
  byte = λ f j. f.1 j;
  pwrite = λ d off f. (Answer.done (min 2 (length d)), put d off f);
  pread = λ n off f. Answer.done (fetch n off f);
  fsync = λ f. Answer.done tt;
  ftruncate = λ n f. (Answer.done tt, (n, f.1));
  posix_fallocate = λ n f. (Answer.done tt, (max f.0 n, f.1));
  preallocate = λ n f. (Answer.refused, f);
  has_fallocate = true;
  is_darwin = false;
  open_file = Answer.done (0, λ j. some 0);
  mkdir = Answer.done tt;
  disk_free = Answer.done 100;
}

put-inside :
    (d : Bytes) (off j : ℕ) (f : Disk)
    → off ≤ j
    → j < off + min 2 (length d)
    → (put d off f).1 j ≡ get_elem? d (j - off)
put-inside d off j f low high = rw (le→leb off j low, lt→ltb j (off + min 2 (length d)) high) refl

put-outside :
    (d : Bytes) (off j : ℕ) (f : Disk)
    → (j < off) ⊎ (off + min 2 (length d) ≤ j)
    → (put d off f).1 j ≡ f.1 j
put-outside d off j f (inl low) = rw (lt→leb_false off j low) refl
put-outside d off j f (inr high) = elim (Bool-cases (leb off j)) [
  | inl some_way ↦ rw (some_way, le→ltb_false j (off + min 2 (length d)) high) refl
  | inr before ↦ rw before refl
]

drive-IsPwrite : (d : Bytes) (off : ℕ) (f : Disk) → IsPwrite drive d off f
drive-IsPwrite d off f = record {
  pwrite_size = refl;
  pwrite_count = λ k e. let same : min 2 (length d) ≡ k = cc in omega (arith, same);
  pwrite_written = λ k e i h.
      let same : min 2 (length d) ≡ k = cc in
      put-inside d off (off + i) f (omega arith) (omega (arith, same))
      ∙ ap (get_elem? d) {x = off + i - off} (omega arith);
  pwrite_byte = λ j. elim (dec_lt j off) [
    | yes low ↦ inl (put-outside d off j f (inl low))
    | no from ↦ elim (dec_lt j (off + min 2 (length d))) [
      | yes high ↦ inr (omega arith, omega arith, put-inside d off j f (omega arith) high)
      | no past ↦ inl (put-outside d off j f (inr (omega arith)))
    ]
  ];
}

length-before_end : (o : Option ℕ) (rest : Bytes) → length (before_end o rest) ≤ suc (length rest)
length-before_end none rest = omega arith
length-before_end (some b) rest = omega arith

length-fetch : (n off : ℕ) (f : Disk) → length (fetch n off f) ≤ n
length-fetch zero off f = omega arith
length-fetch (suc n) off f =
    omega (arith, length-before_end (f.1 off) (fetch n (suc off) f), length-fetch n (suc off) f)

get_elem?-before_end :
    (o : Option ℕ) (rest : Bytes) (g : ℕ → Option ℕ) (off i : ℕ)
    → g off ≡ o
    → ((k : ℕ) → k < length rest → get_elem? rest k ≡ g (suc off + k))
    → i < length (before_end o rest)
    → get_elem? (before_end o rest) i ≡ g (off + i)
get_elem?-before_end none rest g off i e later h = absurd (omega arith)
get_elem?-before_end (some b) rest g off zero e later h =
    sym e ∙ ap g {x = off} {y = off + 0} (omega arith)
get_elem?-before_end (some b) rest g off (suc i) e later h =
    later i (omega arith) ∙ ap g {x = suc off + i} {y = off + suc i} (omega arith)

get_elem?-fetch :
    (n off : ℕ) (f : Disk) (i : ℕ)
    → i < length (fetch n off f)
    → get_elem? (fetch n off f) i ≡ f.1 (off + i)
get_elem?-fetch zero off f i h = absurd (omega arith)
get_elem?-fetch (suc n) off f i h =
    get_elem?-before_end (f.1 off) (fetch n (suc off) f) f.1 off i refl
      (get_elem?-fetch n (suc off) f) h

pub drive-Laws : Laws drive
drive-Laws = record {
  pwrite_law = λ d off f h. drive-IsPwrite d off f;
  pread_law = λ n off f. record {
    pread_count = λ d e. let same : fetch n off f ≡ d = cc in rw same at (length-fetch n off f);
    pread_byte = λ d e i h.
        let same : fetch n off f ≡ d = cc in rw same at (get_elem?-fetch n off f i (rw same h));
  };
}

abbrev pub fresh : SparseFileWriter drive
fresh = record {
  file = (7, λ j. some 0);
  total_size = 7;
  strategy = AllocationStrategy.auto;
  is_closed = false;
  preallocated = true;
  written_bytes = 0;
}

-- Pieces of 10, 11, 12 and so on, one of them refused.
abbrev counting : ℕ → Option ℕ
counting j = some (10 + j)

abbrev count_from : ℕ → ℕ → Bytes
count_from zero start = []
count_from (suc n) start = (10 + start) ∷ count_from n (suc start)

get_elem?-count_from :
    (n start i : ℕ)
    → i < length (count_from n start)
    → get_elem? (count_from n start) i ≡ counting (start + i)
get_elem?-count_from zero start i h = absurd (omega arith)
get_elem?-count_from (suc n) start zero h = ap counting {x = start} (omega arith)
get_elem?-count_from (suc n) start (suc i) h =
    get_elem?-count_from n (suc start) i (omega arith)
    ∙ ap counting {x = suc start + i} (omega arith)

abbrev piece : ℕ → ℕ → Piece
piece start n = record { offset = pos start; payload = count_from n start }

piece-IsFrom : (start n : ℕ) → IsFrom counting (piece start n)
piece-IsFrom start n j (low, high) =
    get_elem?-count_from n start (j - start) (omega arith)
    ∙ ap counting {x = start + (j - start)} (omega arith)

abbrev pieces : List Piece
pieces = piece 4 3 ∷ piece 6 2 ∷ piece 0 5 ∷ []

write_pieces-IsFrom_example : (write_pieces drive pieces fresh).file.1 1 ≡ counting 1
unfolding write_at write_loop
write_pieces-IsFrom_example =
    write_pieces-IsFrom drive drive-Laws counting pieces fresh 1 (omega arith)
      (piece-IsFrom 4 3, (piece-IsFrom 6 2, (piece-IsFrom 0 5, tt)))
      (inr (inr (inl (5, refl, (omega arith, omega arith)))))

read_at-write_pieces_example :
    let v =
      write_pieces drive
        (piece 4 3 ∷ piece 6 2 ∷ [])
        (write_at drive (pos 1) (10 ∷ 11 ∷ 12 ∷ []) fresh).1 in
    Reading drive 1 (10 ∷ 11 ∷ 12 ∷ []) v.file (read_at drive (pos 1) (pos 3) v)
unfolding write_at write_loop
read_at-write_pieces_example =
    read_at-write_pieces drive drive-Laws 1 3 (10 ∷ 11 ∷ 12 ∷ []) fresh (piece 4 3 ∷ piece 6 2 ∷ [])
      (omega arith) refl (inr (omega arith), (inr (omega arith), tt))

write_at-Outcome_example :
    (IsRefused drive (pos 4) (1 ∷ 2 ∷ 3 ∷ []) fresh
      × (write_at drive (pos 4) (1 ∷ 2 ∷ 3 ∷ []) fresh ≡ (err storage_error, fresh)))
    ⊎ ((¬ IsRefused drive (pos 4) (1 ∷ 2 ∷ 3 ∷ []) fresh)
        × (fresh.is_closed ≡ false)
        × Outcome drive 4 (1 ∷ 2 ∷ 3 ∷ []) fresh (write_at drive (pos 4) (1 ∷ 2 ∷ 3 ∷ []) fresh))
write_at-Outcome_example =
    write_at-Outcome drive drive-Laws (pos 4) (1 ∷ 2 ∷ 3 ∷ []) fresh (omega arith)

fixed_partition-write_pieces_example : (write_pieces drive pieces fresh).file.1 2 ≡ counting 2
unfolding fixed_partition cut rounds write_at write_loop
fixed_partition-write_pieces_example =
    fixed_partition-write_pieces drive drive-Laws 7 (pos 4) counting pieces fresh 2 (omega arith)
      (piece-IsFrom 4 3, (piece-IsFrom 6 2, (piece-IsFrom 0 5, tt)))
      (
        (λ j h. inr (inr (inl (5, refl, (omega (arith, h.0), omega (arith, h.1)))))),
        ((λ j h. inl (3, refl, (omega (arith, h.0), omega (arith, h.1)))), tt),
      )
      (omega arith)
