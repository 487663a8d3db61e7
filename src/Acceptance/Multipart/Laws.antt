-- ===== src/Acceptance/Multipart/Laws.antt =====
-- `MultipartBody` of scripts/acceptance.py: a consumer that asks for positive amounts receives
-- the whole upload body, and the Content-Length header announces its length.
use mathlib.Core.Path.{subst}
use uart2llm.Prelude.{
  ℕ, zero, suc, ◌-◌, ◌≤◌, ◌<◌, min, ◌≡◌, ◌≢◌, refl, sym, ap, ◌∙◌, List, [], ◌∷◌, ◌++◌, arith,
  length, length-append, take, drop, take-append-drop, append-nil, append_assoc, All,
}
use uart2llm.Prelude.Int.{pos}
use uart2llm.Acceptance.Pattern.{chunk, PatternBody}
use uart2llm.Acceptance.Pattern
use uart2llm.Acceptance.Pattern.Bytes.{
  fixture_bytes, fixture_bytes-append, same_bytes, length-fixture_bytes,
}
use uart2llm.Acceptance.Pattern.Laws.{taken, advance, read_lem}
use uart2llm.Acceptance.Multipart.{MultipartBody, head_bytes, tail_bytes, multipart_body, read}

-- What a body still has to deliver.
abbrev pub rest_of : PatternBody → List ℕ
rest_of p = fixture_bytes p.offset (p.size - p.offset)

abbrev pub remaining : MultipartBody → List ℕ
remaining b = b.prefix ++ (rest_of b.pattern_part ++ b.suffix)

-- The body that the server has to receive for a file of the given size.
abbrev pub upload_body : ℕ → List ℕ
upload_body size = head_bytes ++ (fixture_bytes 0 size ++ tail_bytes)

abbrev pub IsValid : MultipartBody → Type 0
IsValid b = b.pattern_part.offset ≤ b.pattern_part.size

-- What one read does: nothing is lost or repeated, and an empty read is the end.
pub record Delivers (b : MultipartBody) (r : List ℕ × MultipartBody) : Type 0 where
  pub conserved : r.0 ++ remaining r.1 ≡ remaining b
  pub valid : IsValid r.1
  pub ends : r.0 ≡ [] → remaining b ≡ []

take-ne-nil : (k : ℕ) (x : ℕ) (xs : List ℕ) → take (suc k) (x ∷ xs) ≢ []
take-ne-nil k x xs e = cc

take-eq-nil : (k : ℕ) (xs : List ℕ) → take (suc k) xs ≡ [] → xs ≡ []
take-eq-nil k [] e = refl
take-eq-nil k (x ∷ xs) e = cc

min_pos : (n : ℕ) → 0 < n → (k : ℕ) × (min chunk n ≡ suc k)
min_pos n h = (min chunk n - 1, omega arith)

-- The pattern's part of a read.
pattern_conserved :
    (n : ℕ) (p : PatternBody)
    → p.offset ≤ p.size
    → fixture_bytes p.offset (taken (pos n) p) ++ rest_of (advance (taken (pos n) p) p) ≡ rest_of p
pattern_conserved n p h =
    fixture_bytes-append p.offset (taken (pos n) p) _
    ∙ same_bytes p.offset p.offset _ _ refl (omega arith)

-- `read` with its amount already cut to the chunk size, after the pattern's own read.
abbrev finish : ℕ → List ℕ → PatternBody → ℕ → List ℕ × PatternBody → List ℕ × MultipartBody
finish k suffix p len t =
    let (part, p') = t in
    elim part [
      | y ∷ ys ↦
          (y ∷ ys, record { prefix = []; suffix = suffix; pattern_part = p'; body_length = len })
      | [] ↦ (
        take k suffix,
        record { prefix = []; suffix = drop k suffix; pattern_part = p'; body_length = len },
      )
    ]

module _ (k : ℕ) (suffix : List ℕ) (p : PatternBody) (len : ℕ) (h : p.offset ≤ p.size) where
  abbrev body : MultipartBody
  body = record { prefix = []; suffix = suffix; pattern_part = p; body_length = len }

  exhausted : (q : PatternBody) → q.size - q.offset ≡ 0 → rest_of q ≡ []
  unfolding fixture_bytes
  exhausted q e = same_bytes q.offset q.offset _ 0 refl e

  finish-Delivers :
      (m : ℕ)
      → taken (pos (suc k)) p ≡ m
      → Delivers body (finish (suc k) suffix p len (fixture_bytes p.offset m, advance m p))
  unfolding fixture_bytes
  finish-Delivers zero e = record {
    conserved =
        rw (exhausted p (omega arith), exhausted (advance 0 p) (omega arith))
          (take-append-drop (suc k) suffix);
    valid = omega arith;
    ends = λ q. rw (exhausted p (omega arith)) (take-eq-nil k suffix q);
  }
  finish-Delivers (suc m) e = record {
    conserved =
        sym (append_assoc (fixture_bytes p.offset (suc m)) (rest_of (advance (suc m) p)) suffix)
        ∙ ap (λ t. t ++ suffix) (rw e at (pattern_conserved (suc k) p h));
    valid = omega arith;
    ends = λ q. cc;
  }

  finish_read :
      (requested : ℕ) → min chunk requested ≡ suc k → Delivers body (read (pos requested) body)
  unfolding read
  finish_read requested e =
      subst (λ n. Delivers body (finish n suffix p len (Pattern.read (pos n) p))) (sym e)
        (subst (λ t. Delivers body (finish (suc k) suffix p len t)) (sym (read_lem (pos (suc k)) p))
          (finish-Delivers (taken (pos (suc k)) p) refl))

prefix_read :
    (x : ℕ) (xs : List ℕ) (b : MultipartBody) (requested k : ℕ)
    → IsValid b
    → min chunk requested ≡ suc k
    → Delivers (record b { prefix = x ∷ xs }) (read (pos requested) (record b { prefix = x ∷ xs }))
unfolding read
prefix_read x xs b requested k h e = rw e (record {
  conserved =
      sym (append_assoc (take (suc k) (x ∷ xs)) (drop k xs) (rest_of b.pattern_part ++ b.suffix))
      ∙ ap (λ t. t ++ (rest_of b.pattern_part ++ b.suffix)) (take-append-drop (suc k) (x ∷ xs));
  valid = h;
  ends = λ q. cc;
})

read_parts :
    (prefix : List ℕ) (b : MultipartBody) (n k : ℕ)
    → IsValid b
    → min chunk n ≡ suc k
    → Delivers (record b { prefix = prefix }) (read (pos n) (record b { prefix = prefix }))
read_parts [] b n k h e = finish_read k b.suffix b.pattern_part b.body_length h n e
read_parts (x ∷ xs) b n k h e = prefix_read x xs b n k h e

-- A read of a positive amount.
pub read-Delivers : (b : MultipartBody) (n : ℕ) → 0 < n → IsValid b → Delivers b (read (pos n) b)
read-Delivers b n positive h = let (k, e) = min_pos n positive in read_parts b.prefix b n k h e

-- What a consumer has received after asking for the given amounts in turn.
unfoldable pub reads : List ℕ → MultipartBody → List ℕ × MultipartBody
reads [] b = ([], b)
reads (n ∷ rest) b =
    let (bytes, b') = read (pos n) b in let (more, b'') = reads rest b' in (bytes ++ more, b'')

reads_conserved :
    (amounts : List ℕ) (b : MultipartBody)
    → All (λ n. 0 < n) amounts
    → IsValid b
    → ((reads amounts b).0 ++ remaining (reads amounts b).1 ≡ remaining b)
      × IsValid (reads amounts b).1
unfolding reads
reads_conserved [] b positive h = (refl, h)
reads_conserved (n ∷ rest) b (positive, more) h =
    let d = read-Delivers b n positive h in
    let (e, valid) = reads_conserved rest (read (pos n) b).1 more d.valid in
    (
      append_assoc (read (pos n) b).0 (reads rest (read (pos n) b).1).0 _
          ∙ ap (λ t. (read (pos n) b).0 ++ t) e
          ∙ d.conserved,
      valid,
    )

remaining-multipart_body : (size : ℕ) → remaining (multipart_body size) ≡ upload_body size
unfolding multipart_body
remaining-multipart_body size =
    ap (λ t. head_bytes ++ (t ++ tail_bytes)) (same_bytes 0 0 (size - 0) size refl (omega arith))

starts : (size : ℕ) → IsValid (multipart_body size)
unfolding multipart_body
starts size = omega arith

length-upload_body : (size : ℕ) → length (upload_body size) ≡ (multipart_body size).body_length
unfolding multipart_body
length-upload_body size = omega (
  arith,
  length-append head_bytes (fixture_bytes 0 size ++ tail_bytes),
  length-append (fixture_bytes 0 size) tail_bytes,
  length-fixture_bytes 0 size,
)

-- Whatever positive amounts a consumer asks for, what it has received is the beginning of the
-- upload body, and what it has not received is what the body still holds.
pub reads-upload_body :
    (size : ℕ) (amounts : List ℕ)
    → All (λ n. 0 < n) amounts
    → (reads amounts (multipart_body size)).0 ++ remaining (reads amounts (multipart_body size)).1
      ≡ upload_body size
reads-upload_body size amounts positive =
    (reads_conserved amounts (multipart_body size) positive (starts size)).0
    ∙ remaining-multipart_body size

-- When a read of a positive amount returns no bytes, everything has been received, and it is as
-- long as the Content-Length header said.
pub reads_complete :
    (size n : ℕ) (amounts : List ℕ)
    → All (λ n. 0 < n) amounts
    → 0 < n
    → (read (pos n) (reads amounts (multipart_body size)).1).0 ≡ []
    → ((reads amounts (multipart_body size)).0 ≡ upload_body size)
      × (length (reads amounts (multipart_body size)).0 ≡ (multipart_body size).body_length)
reads_complete size n amounts positive one_more over =
    let (e, valid) = reads_conserved amounts (multipart_body size) positive (starts size) in
    let r = reads amounts (multipart_body size) in
    let empty = (read-Delivers r.1 n one_more valid).ends over in
    let whole : r.0 ≡ upload_body size =
      sym (append-nil r.0)
      ∙ ap (λ t. r.0 ++ t) (sym empty)
      ∙ reads-upload_body size amounts positive in
    (whole, ap length whole ∙ length-upload_body size)
