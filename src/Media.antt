-- ===== src/Media.antt =====
-- internal/api/handlers/media_handler.go: files that are put into a bucket of S3.
use Prim.Native.Char.{code}
use landmark_api.Common.{
  ℕ, zero, suc, String, Bool, true, false, Option, none, some, List, [], ◌∷◌, Result, ok, err,
  ◌>>=◌, if◌then◌else◌, ◌==◌, ◌&&◌, not, eqb,
}
use landmark_api.Common.Text.{is_empty, ◌+++◌}
use landmark_api.Http.{Request, Writer, set, http_error}
use landmark_api.Http.Responses.{encode}

-- What stands to the right of a place in a path: no dot and no slash, a slash before any dot, or
-- the last dot of the last element with what follows it.
pub data Tail : Type 0 where
  plain : Tail
  slash : Tail
  dot : String → Tail

tail_of : String → Tail
tail_of String.[] = plain
tail_of (String.◌∷◌ c s) = elim (tail_of s) [
  | plain ↦
      if eqb (code c) b'/' then slash else if eqb (code c) b'.' then dot (String.◌∷◌ c s) else plain
  | slash ↦ slash
  | dot e ↦ dot e
]

abbrev is_plain : Tail → Bool
is_plain plain = true
is_plain slash = false
is_plain (dot e) = false

-- filepath.Ext
unfoldable pub extension : String → String
unfolding tail_of
extension s = elim (tail_of s) [ plain ↦ "" | slash ↦ "" | dot e ↦ e ]

-- strings.TrimSuffix(s, filepath.Ext(s))
unfoldable pub stem : String → String
unfolding tail_of
stem String.[] = ""
stem (String.◌∷◌ c s) =
    let rest = stem s in if eqb (code c) b'.' && is_plain (tail_of s) then "" else String.◌∷◌ c rest

-- `timestamp` is the time in the format 20060102150405, and `unique` the first eight characters of
-- a new id.
unfoldable pub generate_unique_filename : String → String → String → String
unfolding extension stem
generate_unique_filename timestamp unique original =
    stem original +++ ("_" +++ (timestamp +++ ("_" +++ (unique +++ extension original))))

-- A file of the form. `content` is what opening and reading it gives.
pub record FileHeader : Type 0 where
  pub filename : String
  pub content : Result String String
  pub content_type : String

-- s[n:] of a text whose first bytes are ASCII, `none` where that panics.
unfoldable pub slice_from : ℕ → String → Option String
slice_from zero s = some s
slice_from (suc n) String.[] = none
slice_from (suc n) (String.◌∷◌ c s) = slice_from n s

-- `put_object` is PutObject of the client on the bucket: the key, the content and its type.
module _ {S : Type 0} (bucket : String)
    (put_object : S → String → String → String → Result String S) where
  -- The common part of uploadFile and uploadPhoto: the url, and what is stored.
  unfoldable pub put_file : String → FileHeader → S → Result String (String × S)
  put_file key file s = do
    buffer ← file.content
    s' ← put_object s key buffer file.content_type
    ok ("https://" +++ (bucket +++ (".s3.amazonaws.com/" +++ key)), s')

  unfoldable pub upload_file :
      String → String → String → FileHeader → S → Result String (String × S)
  unfolding generate_unique_filename put_file
  upload_file landmark_id timestamp unique file s =
      put_file
        ("landmarks/"
          +++ (landmark_id +++ ("/" +++ generate_unique_filename timestamp unique file.filename)))
        file s

  unfoldable pub upload_photo : String → String → FileHeader → S → Result String (String × S)
  unfolding generate_unique_filename put_file
  upload_photo timestamp unique file s =
      put_file ("user-photos/" +++ generate_unique_filename timestamp unique file.filename) file s

  -- The loops of Upload and SubmitPhotos: the urls, or the error of the first file that fails.
  -- What was put before it stays. `n` counts the files.
  unfoldable pub put_all :
      (ℕ → FileHeader → S → Result String (String × S))
      → ℕ
      → List FileHeader
      → S
      → Result String (List String) × S
  put_all put n [] s = (ok [], s)
  put_all put n (file ∷ files) s = elim (put n file s) [
    | err m ↦ (err m, s)
    | ok done ↦
        let (urls, s') = put_all put (suc n) files done.1 in (urls >>= (λ us. ok (done.0 ∷ us)), s')
  ]

  module _ (marshal : List String → Option String) where
    -- What both handlers do with the files of the form.
    unfoldable pub answer_files :
        (ℕ → FileHeader → S → Result String (String × S))
        → String
        → Result String (List FileHeader)
        → Writer
        → S
        → Writer × S
    unfolding put_all encode
    answer_files put missing form w s = elim form [
      | err m ↦ (http_error m 400 w, s)
      | ok [] ↦ (http_error missing 400 w, s)
      | ok (file ∷ files) ↦
          let (urls, s') = put_all put zero (file ∷ files) s in
          elim urls [
            | err m ↦ (http_error m 500 w, s')
            | ok us ↦ (encode marshal us (set "Content-Type" "application/json" w), s')
          ]
    ]

    -- `form` is what ParseMultipartForm gives under "images"; `timestamp` and `unique` are those of
    -- each file. The outer `none` is the panic of a path that is too short.
    unfoldable pub upload :
        (ℕ → String)
        → (ℕ → String)
        → Result String (List FileHeader)
        → Request
        → Writer
        → S
        → Option (Writer × S)
    unfolding answer_files upload_file slice_from
    upload timestamp unique form r w s =
        if not (r.method == "POST")
        then some (http_error "Method not allowed" 405 w, s)
        else elim (slice_from 8 r.path) [
          | none ↦ none
          | some landmark_id ↦ some (
              if is_empty landmark_id
              then (http_error "Landmark ID is required" 400 w, s)
              else answer_files (λ n. upload_file landmark_id (timestamp n) (unique n))
                  "No files uploaded" form w s)
        ]

    unfoldable pub submit_photos :
        (ℕ → String)
        → (ℕ → String)
        → Result String (List FileHeader)
        → Request
        → Writer
        → S
        → Writer × S
    unfolding answer_files upload_photo
    submit_photos timestamp unique form r w s =
        if not (r.method == "POST")
        then (http_error "Method not allowed" 405 w, s)
        else answer_files (λ n. upload_photo (timestamp n) (unique n)) "No photos uploaded" form w s
