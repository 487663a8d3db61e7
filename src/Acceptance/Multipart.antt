-- ===== src/Acceptance/Multipart.antt =====
-- scripts/acceptance.py: `MultipartBody`, the upload body with the fixture file inside.
pub mod Laws
mod Tests
use uart2llm.Prelude.{ℕ, ◌+◌, String, List, [], ◌∷◌, ◌++◌, codes, length}
use uart2llm.Prelude.Int.{ℤ, min_ℤ, slice_to, slice_from}
use uart2llm.Acceptance.Pattern.{chunk, PatternBody, pattern_body}
use uart2llm.Acceptance.Pattern

-- `pattern` is the body inside, `length` the value of the Content-Length header.
pub record MultipartBody : Type 0 where
  pub prefix : List ℕ
  pub suffix : List ℕ
  pub pattern_part : PatternBody
  pub body_length : ℕ

abbrev pub boundary : String
boundary = "uart2llm-acceptance-fixed-boundary-v1"

-- The two texts of `__init__`; every character of them is ASCII.
pub head_bytes : List ℕ
head_bytes =
    codes "--"
    ++ (codes boundary
        ++ (codes "\r\nContent-Disposition: form-data; name=\"purpose\"\r\n\r\nfine-tune\r\n"
            ++ (codes "--"
                ++ (codes boundary
                    ++ (codes
                          "\r\nContent-Disposition: form-data; name=\"file\"; filename=\"pattern.bin\"\r\n"
                        ++ codes "Content-Type: application/octet-stream\r\n\r\n")))))

pub tail_bytes : List ℕ
tail_bytes = codes "\r\n--" ++ (codes boundary ++ codes "--\r\n")

-- `__init__`
pub multipart_body : ℕ → MultipartBody
multipart_body size = record {
  prefix = head_bytes;
  suffix = tail_bytes;
  pattern_part = pattern_body size;
  body_length = length head_bytes + size + length tail_bytes;
}

-- `read`
pub read : ℤ → MultipartBody → List ℕ × MultipartBody
read requested b =
    let amount = min_ℤ chunk requested in
    elim b.prefix [
      | x ∷ xs ↦ (slice_to amount (x ∷ xs), record b { prefix = slice_from amount (x ∷ xs) })
      | [] ↦
          let (part, pattern') = Pattern.read amount b.pattern_part in
          elim part [
            | y ∷ ys ↦ (y ∷ ys, record b { pattern_part = pattern' })
            | [] ↦ (
              slice_to amount b.suffix,
              record b { pattern_part = pattern'; suffix = slice_from amount b.suffix },
            )
          ]
    ]
