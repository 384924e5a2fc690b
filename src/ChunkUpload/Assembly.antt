-- ===== src/ChunkUpload/Assembly.antt =====
-- src/main.cpp: an upload in chunks that is put together again.
use fileagent_server.Base.{
  ℕ, suc, ◌^◌, ◌≤◌, ◌<◌, ◌≡◌, ◌∙◌, refl, sym, subst, ap, arith, Bool, true, false, List, [], ◌∷◌,
  ◌++◌, Option, none, some, ◌==◌, ==_iff, if◌then◌else◌, length, is_empty, All, Bool-cases, inl,
  inr, ne→same,
}
use fileagent_server.Base.Bytes.{Bytes, codes, bytes_eq, bytes_eq_refl, bytes_key}
use fileagent_server.Base.Assoc.{lookup, insert, lookup-insert}
use fileagent_server.Base.Int.{ℤ, pos, eq_ℤ_iff}
use fileagent_server.Base.Number.{decimal, stoi-decimal, decimal-injective}
use fileagent_server.ChunkUpload.{
  ChunkUploadSession, Sessions, get_session, add_index, mark_chunk_received, Reply, Store, tmp_dir,
  chunk_path, chunk_upload, merged, merge_chunks,
}

-- The user's session for an upload in the given number of chunks.
abbrev pub Ready : ℤ → Bytes → ℕ → Store → Type 0
Ready user_id upload_id total st =
    (s : ChunkUploadSession) × (get_session upload_id st.sessions ≡ some s)
    × (s.user_id ≡ user_id)
    × (s.total_chunks ≡ pos total)

-- A chunk that is in range, has bytes and can be written.
abbrev pub Fine : (Bytes → Option Bool) → Bytes → ℕ → ℕ × Bytes → Type 0
Fine writes upload_id total (i, body) =
    (i < total) × (is_empty body ≡ false) × (writes (chunk_path upload_id (decimal i)) ≡ some true)

abbrev held : Bytes → ℕ → Store → Option Bytes
held upload_id i st = lookup (chunk_path upload_id (decimal i)) st.files

-- The store after a chunk that was accepted.
abbrev with_chunk : Bytes → ℕ → Bytes → Store → Store
with_chunk upload_id i body st = record {
  sessions = (mark_chunk_received upload_id (pos i) st.sessions).1;
  files = insert (chunk_path upload_id (decimal i)) body st.files;
}

abbrev accepted : Reply
accepted = record { code = 0; message = codes "chunk received" }

append-cancel : (s t u : Bytes) → s ++ t ≡ s ++ u → t ≡ u
append-cancel [] t u e = e
append-cancel (c ∷ s) t u e = append-cancel s t u (cc)

chunk_path-injective :
    (upload_id : Bytes) (i j : ℕ)
    → chunk_path upload_id (decimal i) ≡ chunk_path upload_id (decimal j)
    → i ≡ j
chunk_path-injective upload_id i j e =
    decimal-injective i j (append-cancel (b'/' ∷ []) _ _ (append-cancel (tmp_dir upload_id) _ _ e))

same-chunk_path :
    (upload_id : Bytes) (i j : ℕ)
    → bytes_eq (chunk_path upload_id (decimal i)) (chunk_path upload_id (decimal j)) ≡ (i == j)
same-chunk_path upload_id i j = elim (Bool-cases (i == j)) [
  | inl e ↦
      subst
        (λ k. bytes_eq (chunk_path upload_id (decimal i)) (chunk_path upload_id (decimal k)) ≡ true)
        ((==_iff i j).0 e) (bytes_eq_refl (chunk_path upload_id (decimal i)))
      ∙ sym e
  | inr e ↦
      ne→same (chunk_path upload_id (decimal i)) (chunk_path upload_id (decimal j))
        (λ p. absurd (ground (arith, chunk_path-injective upload_id i j p)))
      ∙ sym e
]

held-with_chunk :
    (upload_id : Bytes) (i j : ℕ) (body : Bytes) (st : Store)
    → held upload_id j (with_chunk upload_id i body st)
      ≡ (if i == j then some body else held upload_id j st)
held-with_chunk upload_id i j body st =
    lookup-insert (chunk_path upload_id (decimal i)) (chunk_path upload_id (decimal j)) body
      st.files
    ∙ ap (λ b. if b then some body else held upload_id j st) (same-chunk_path upload_id i j)

chunk_upload-Fine :
    (writes : Bytes → Option Bool) (user_id : ℤ) (upload_id : Bytes) (total i : ℕ) (body : Bytes)
    (st : Store)
    → total ≤ 2 ^ 31
    → Ready user_id upload_id total st
    → Fine writes upload_id total (i, body)
    → chunk_upload writes user_id upload_id (decimal i) body st
      ≡ some (accepted, with_chunk upload_id i body st)
unfolding chunk_upload
chunk_upload-Fine writes user_id upload_id total i body st b (s, at, mine, many)
      (below, bytes, opens) =
    let owns = (eq_ℤ_iff s.user_id user_id).1 mine in
    let index = stoi-decimal i (omega (arith, b, below)) in
    ground (arith, at, owns, index, many, opens, bytes, below)

marked-at :
    (upload_id : Bytes) (i : ℤ) (sessions : Sessions) (s : ChunkUploadSession)
    → get_session upload_id sessions ≡ some s
    → get_session upload_id (mark_chunk_received upload_id i sessions).1
      ≡ some (record s { received = add_index i s.received })
unfolding get_session mark_chunk_received
marked-at upload_id i sessions s at =
    let marked = record s { received = add_index i s.received } in
    rw (at, mark_chunk_received)
      (lookup-insert upload_id upload_id marked sessions
        ∙ ap (λ b. if b then some marked else lookup upload_id sessions) (bytes_eq_refl upload_id))

Ready-with_chunk :
    (user_id : ℤ) (upload_id : Bytes) (total i : ℕ) (body : Bytes) (st : Store)
    → Ready user_id upload_id total st
    → Ready user_id upload_id total (with_chunk upload_id i body st)
Ready-with_chunk user_id upload_id total i body st (s, at, mine, many) = (
  record s { received = add_index (pos i) s.received },
  marked-at upload_id (pos i) st.sessions s at,
  mine,
  many,
)

-- The chunks of one upload, one after the other, as long as they are accepted.
abbrev pub upload_all : (Bytes → Option Bool) → ℤ → Bytes → List (ℕ × Bytes) → Store → Option Store
upload_all writes user_id upload_id [] st = some st
upload_all writes user_id upload_id ((i, body) ∷ ups) st =
    elim (chunk_upload writes user_id upload_id (decimal i) body st) [
      | none ↦ none
      | some (r, st') ↦
          let rest = upload_all writes user_id upload_id ups st' in
          if r.code == 0 then rest else none
    ]

-- The last chunk that was sent for an index.
abbrev pub last_body : ℕ → List (ℕ × Bytes) → Option Bytes → Option Bytes
last_body i [] before = before
last_body i ((j, body) ∷ ups) before = last_body i ups (if j == i then some body else before)

last_body-some :
    (i : ℕ) (ups : List (ℕ × Bytes)) (before : Option Bytes) (c : Bytes)
    → last_body i ups none ≡ some c
    → last_body i ups before ≡ some c
last_body-some i [] before c e = absurd (cc)
last_body-some i ((j, body) ∷ ups) before c e = elim (Bool-cases (j == i)) [
  | inl t ↦
      ap (λ b. last_body i ups (if b then some body else before)) t
      ∙ sym (ap (λ b. last_body i ups (if b then some body else none)) t)
      ∙ e
  | inr f ↦
      ap (λ b. last_body i ups (if b then some body else before)) f
      ∙ last_body-some i ups before c
          (sym (ap (λ b. last_body i ups (if b then some body else none)) f) ∙ e)
]

-- The indices from the given one on hold these chunks.
abbrev pub Holds : Bytes → Store → ℕ → List Bytes → Type 0
Holds upload_id st i [] = Unit
Holds upload_id st i (c ∷ cs) = (held upload_id i st ≡ some c) × Holds upload_id st (suc i) cs

abbrev pub together : List Bytes → Bytes
together [] = []
together (c ∷ cs) = c ++ together cs

merge_chunks-Holds :
    (upload_id : Bytes) (st : Store) (i : ℕ) (cs : List Bytes)
    → Holds upload_id st i cs
    → All (λ c. is_empty c ≡ false) cs
    → merge_chunks upload_id st.files true i (length cs) ≡ merged (together cs)
unfolding merge_chunks
merge_chunks-Holds upload_id st i [] h f = refl
merge_chunks-Holds upload_id st i (c ∷ cs) h f =
    let rest = merge_chunks-Holds upload_id st (suc i) cs h.1 f.1 in
    rw (h.0, merge_chunks, f.0, rest) refl

-- The chunks that were sent last for the indices from the given one on.
abbrev pub Sent : List (ℕ × Bytes) → ℕ → List Bytes → Type 0
Sent ups i [] = Unit
Sent ups i (c ∷ cs) = (last_body i ups none ≡ some c) × Sent ups (suc i) cs

module _ (writes : Bytes → Option Bool) (user_id : ℤ) (upload_id : Bytes) (total : ℕ) where
  upload_all-next :
      (i : ℕ) (body : Bytes) (ups : List (ℕ × Bytes)) (st st1 : Store)
      → chunk_upload writes user_id upload_id (decimal i) body st ≡ some (accepted, st1)
      → upload_all writes user_id upload_id ((i, body) ∷ ups) st
        ≡ upload_all writes user_id upload_id ups st1
  upload_all-next i body ups st st1 step = rw (step, upload_all) refl

  -- What the chunks have done to the store.
  abbrev Uploaded : List (ℕ × Bytes) → Store → Type 0
  Uploaded ups st =
      (st' : Store) × (upload_all writes user_id upload_id ups st ≡ some st')
      × ((j : ℕ) → held upload_id j st' ≡ last_body j ups (held upload_id j st))

  upload_all-Uploaded :
      (ups : List (ℕ × Bytes)) (st : Store)
      → total ≤ 2 ^ 31
      → Ready user_id upload_id total st
      → All (Fine writes upload_id total) ups
      → Uploaded ups st
  upload_all-Uploaded [] st b r h = (st, refl, λ j. refl)
  upload_all-Uploaded ((i, body) ∷ ups) st b r h =
      let st1 = with_chunk upload_id i body st in
      let step = chunk_upload-Fine writes user_id upload_id total i body st b r h.0 in
      let (st', runs, holds) =
        upload_all-Uploaded ups st1 b (Ready-with_chunk user_id upload_id total i body st r) h.1 in
      (
        st',
        upload_all-next i body ups st st1 step ∙ runs,
        λ j. holds j ∙ ap (last_body j ups) (held-with_chunk upload_id i j body st),
      )

  last_body-filled :
      (i : ℕ) (ups : List (ℕ × Bytes)) (before : Option Bytes) (c : Bytes)
      → All (Fine writes upload_id total) ups
      → ((b : Bytes) → before ≡ some b → is_empty b ≡ false)
      → last_body i ups before ≡ some c
      → is_empty c ≡ false
  last_body-filled i [] before c h k e = k c e
  last_body-filled i ((j, body) ∷ ups) before c h k e = elim (Bool-cases (j == i)) [
    | inl t ↦
        last_body-filled i ups (some body) c h.1
          (λ b f. subst (λ x. is_empty x ≡ false) (cc f) h.0.1)
          (sym (ap (λ b. last_body i ups (if b then some body else before)) t) ∙ e)
    | inr f ↦
        last_body-filled i ups before c h.1 k
          (sym (ap (λ b. last_body i ups (if b then some body else before)) f) ∙ e)
  ]

  -- What is sent has bytes.
  Sent-filled :
      (ups : List (ℕ × Bytes)) (i : ℕ) (cs : List Bytes)
      → All (Fine writes upload_id total) ups
      → Sent ups i cs
      → All (λ c. is_empty c ≡ false) cs
  Sent-filled ups i [] h sent = tt
  Sent-filled ups i (c ∷ cs) h sent = (
    last_body-filled i ups none c h (λ b e. absurd (cc e)) sent.0,
    Sent-filled ups (suc i) cs h sent.1,
  )

  Sent-Holds :
      (ups : List (ℕ × Bytes)) (st st' : Store) (i : ℕ) (cs : List Bytes)
      → ((j : ℕ) → held upload_id j st' ≡ last_body j ups (held upload_id j st))
      → Sent ups i cs
      → Holds upload_id st' i cs
  Sent-Holds ups st st' i [] holds sent = tt
  Sent-Holds ups st st' i (c ∷ cs) holds sent = (
    holds i ∙ last_body-some i ups (held upload_id i st) c sent.0,
    Sent-Holds ups st st' (suc i) cs holds sent.1,
  )

  -- Chunks that are in range, have bytes and can be written are all accepted, in any order and any
  -- number of times, from a store that holds the user's session of at most 2^31 chunks; and if, after
  -- that, `cs` are the chunks that were sent last for the indices 0, 1 and so on, the merged file
  -- is these chunks put together.
  pub merge_chunks-upload_all :
      (ups : List (ℕ × Bytes)) (cs : List Bytes) (st : Store)
      → total ≤ 2 ^ 31
      → Ready user_id upload_id total st
      → All (Fine writes upload_id total) ups
      → length cs ≡ total
      → Sent ups 0 cs
      → (st' : Store) × (upload_all writes user_id upload_id ups st ≡ some st')
        × (merge_chunks upload_id st'.files true 0 total ≡ merged (together cs))
  merge_chunks-upload_all ups cs st b r h n sent =
      let (st', runs, holds) = upload_all-Uploaded ups st b r h in
      let kept = Sent-Holds ups st st' 0 cs holds sent in
      (
        st',
        runs,
        subst (λ k. merge_chunks upload_id st'.files true 0 k ≡ merged (together cs)) n
            (merge_chunks-Holds upload_id st' 0 cs kept (Sent-filled ups 0 cs h sent)),
      )
