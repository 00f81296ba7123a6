-- ===== src/Tests/Disk.antt =====
-- A database of maps from keys to bytes, which commits every transaction. It takes no messages.
use Prim.Native.Char.{Char, char, code, IsScalar, IsLt}
use Prim.Native.Nat.{Ordering, compare as compare_ℕ}
use Prim.Native.String as Text
use text.Mathlib.TextEquality.{Char-path}
use distsched.Base.{
  ℕ, ◌≡◌, refl, ap, ◌∙◌, true, List, [], ◌∷◌, none, String, Dict, lookup, insert, erase,
  lookup-insert, lookup-erase, arith, if◌then◌else◌,
}
use distsched.Store.{
  Bolt, Bucket, Bytes, Contents, Write, put, delete, apply_write, apply_writes, same_bucket,
  load_election_state, save_election_state,
}
use distsched.Store.Laws.{load-save_election_state}
use distsched.Tests.Memory.{listing, listing_sound, listing_keys, listing_complete}

abbrev Both : Ordering → Ordering → Type 0
Both Ordering.lt o = IsLt o
Both Ordering.eq o = ⊥
Both Ordering.gt o = ⊥

abbrev Scalar : Ordering → Ordering → Ordering → Type 0
Scalar Ordering.lt p q = Unit {0}
Scalar Ordering.eq p q = Both p q
Scalar Ordering.gt p q = Both p q

both_decided : (p q : Ordering) → Dec (Both p q)
both_decided Ordering.lt Ordering.lt = yes tt
both_decided Ordering.lt Ordering.eq = no (λ x. x)
both_decided Ordering.lt Ordering.gt = no (λ x. x)
both_decided Ordering.eq q = no (λ x. x)
both_decided Ordering.gt q = no (λ x. x)

scalar_decided : (o p q : Ordering) → Dec (Scalar o p q)
scalar_decided Ordering.lt p q = yes tt
scalar_decided Ordering.eq p q = both_decided p q
scalar_decided Ordering.gt p q = both_decided p q

decided : (n : ℕ) → Dec (IsScalar n)
decided n = scalar_decided (compare_ℕ n 55296) (compare_ℕ 57343 n) (compare_ℕ n 1114112)

-- The character with the number, or U+0000.
abbrev chosen : (n : ℕ) → Dec (IsScalar n) → Char
chosen n (yes p) = char n p
chosen n (no _) = char 0 tt

chosen-code : (c : Char) (d : Dec (IsScalar (code c))) → chosen (code c) d ≡ c
chosen-code (char n p) (yes q) = Char-path (char n q) (char n p) refl
chosen-code (char n p) (no k) = absurd (k p)

abbrev codes : String → Bytes
codes Text.[] = []
codes (Text.◌∷◌ c s) = code c ∷ codes s

abbrev word : Bytes → String
word [] = Text.[]
word (n ∷ ns) = Text.◌∷◌ (chosen n (decided n)) (word ns)

word-codes : (s : String) → word (codes s) ≡ s
word-codes Text.[] = refl
word-codes (Text.◌∷◌ c s) = λ i. Text.◌∷◌ (chosen-code c (decided (code c)) i) (word-codes s i)

record Files : Type 0 where
  jobs : Dict Bytes
  workers : Dict Bytes
  dead_letter : Dict Bytes
  meta : Dict Bytes

abbrev file : Files → Bucket → Dict Bytes
file d Bucket.jobs = d.jobs
file d Bucket.workers = d.workers
file d Bucket.dead_letter = d.dead_letter
file d Bucket.meta = d.meta

abbrev with_file : Bucket → Dict Bytes → Files → Files
with_file Bucket.jobs m d = record d { jobs = m }
with_file Bucket.workers m d = record d { workers = m }
with_file Bucket.dead_letter m d = record d { dead_letter = m }
with_file Bucket.meta m d = record d { meta = m }

abbrev write_one : Write → Files → Files
write_one (put b k v) d = with_file b (insert k v (file d b)) d
write_one (delete b k) d = with_file b (erase k (file d b)) d

abbrev write_each : List Write → Files → Files
write_each [] d = d
write_each (w ∷ ws) d = write_each ws (write_one w d)

file-with_file :
    (b b' : Bucket) (m : Dict Bytes) (d : Files)
    → file (with_file b m d) b' ≡ (if same_bucket b b' then m else file d b')
file-with_file Bucket.jobs b' m d = ground arith
file-with_file Bucket.workers b' m d = ground arith
file-with_file Bucket.dead_letter b' m d = ground arith
file-with_file Bucket.meta b' m d = ground arith

same-bucket_eq : (b b' : Bucket) → same_bucket b b' ≡ true → b ≡ b'
same-bucket_eq b b' h = ground arith

write_one-applied :
    (w : Write) (d : Files) (b : Bucket) (k : String)
    → lookup k (file (write_one w d) b) ≡ apply_write w (λ c j. lookup j (file d c)) b k
write_one-applied (put b v x) d b' k = ground (
  arith,
  file-with_file b b' (insert v x (file d b)) d,
  lookup-insert v k x (file d b),
  same-bucket_eq b b',
)
write_one-applied (delete b v) d b' k = ground (
  arith,
  file-with_file b b' (erase v (file d b)) d,
  lookup-erase v k (file d b),
  same-bucket_eq b b',
)

apply_writes-ext :
    (ws : List Write) (c e : Contents) (b : Bucket) (k : String)
    → c ≡ e
    → apply_writes ws c b k ≡ apply_writes ws e b k
apply_writes-ext ws c e b k h = ap (λ x. apply_writes ws x b k) h

write_each-applied :
    (ws : List Write) (d : Files) (b : Bucket) (k : String)
    → lookup k (file (write_each ws d) b) ≡ apply_writes ws (λ c j. lookup j (file d c)) b k
write_each-applied [] d b k = refl
write_each-applied (w ∷ ws) d b k =
    write_each-applied ws (write_one w d) b k
    ∙ apply_writes-ext ws (λ c j. lookup j (file (write_one w d) c))
        (apply_write w (λ c j. lookup j (file d c))) b k (λ i c j. write_one-applied w d c j i)

abbrev disk : Bolt
disk = record {
  Db = Files;
  get = λ d b k. lookup k (file d b);
  values = λ d b. listing (file d b) (file d b);
  update = λ ws d. (write_each ws d, true);
  marshal_job = λ j. none;
  unmarshal_job = λ v. none;
  marshal_worker = λ w. none;
  unmarshal_worker = λ v. none;
  text_bytes = codes;
  text_of = word;
  text_codec = word-codes;
  get-update = λ ws d b k. write_each-applied ws d b k;
  values_sound = λ d b v m. listing_sound (file d b) (file d b) v m;
  values_complete = λ d b v k e. listing_complete (file d b) (file d b) k v v e e;
  values_keys = λ d b.
      let (ks, once, there, within) = listing_keys (file d b) (file d b) in (ks, once, there);
  job_codec = λ j v e. absurd (ground arith);
  worker_codec = λ w v e. absurd (ground arith);
}

abbrev blank : Files
blank = record { jobs = []; workers = []; dead_letter = []; meta = [] }

load-save_election_state_example :
    load_election_state disk (save_election_state disk 7 "n2" blank).0 ≡ (
      if (save_election_state disk 7 "n2" blank).1
      then (7, "n2")
      else load_election_state disk blank)
load-save_election_state_example = load-save_election_state disk blank 7 "n2" (omega arith)
