-- ===== src/FlatFs/Files/Paths.antt =====
-- What a written and a removed file leave at the paths (Go's `os`, for datastore/flatfs/flatfs.go).
use juren_cluster.Prelude.{
  ℕ, suc, ◌≡◌, ◌≢◌, ◌<◌, refl, sym, ap, ◌∙◌, arith, Bool, true, false, List, [], ◌∷◌, Bytes,
  bytes_eq_iff, length, ◌==◌, if◌then◌else◌, ◌↔◌, inl, inr, Bool-cases,
}
use juren_cluster.Outcome.{Result, Error, ok, err, panic, stuck, not_found}
use juren_cluster.FlatFs.Files.{
  FilePath, Entry, dir, file, Fs, path_eq, entry_at, without, stat, below, set_entry,
  permission_denied, write_over, write_file, read_file, content_of, removed_at, remove, children,
  is_not_exist,
}

is_not_exist_eq : (e : Error) → is_not_exist e ≡ true → e ≡ not_found
is_not_exist_eq not_found h = refl
is_not_exist_eq e h = absurd (cc h)

path_eq_iff : (p q : FilePath) → (path_eq p q ≡ true) ↔ (p ≡ q)
unfolding path_eq
path_eq_iff [] [] = (λ _. refl, λ _. refl)
path_eq_iff [] (n ∷ q) = (λ h. cc, λ h. cc)
path_eq_iff (m ∷ p) [] = (λ h. cc, λ h. cc)
path_eq_iff (m ∷ p) (n ∷ q) = (
  λ h. ground (arith, path_eq_iff p q, bytes_eq_iff m n),
  λ h. ground (arith, path_eq_iff p q, bytes_eq_iff m n),
)

entry_at-without :
    (p q : FilePath) (es : List (FilePath × Entry))
    → entry_at q (without p es) ≡ (if path_eq p q then err not_found else entry_at q es)
unfolding entry_at without
entry_at-without p q [] = ground arith
entry_at-without p q ((r, e) ∷ es) =
    ground (arith, path_eq_iff p q, path_eq_iff p r, path_eq_iff r q, entry_at-without p q es)

shorter_ne : (p q : FilePath) → length q < length p → path_eq p q ≡ false
shorter_ne p q h = elim (Bool-cases (path_eq p q)) [
  | inl same ↦ absurd (omega (arith, h, ap (λ (r : FilePath). length r) ((path_eq_iff p q).0 same)))
  | inr other ↦ other
]

below-agrees :
    (fs fs' : Fs) (p : FilePath) (r : Result Entry)
    → fs'.denied p ≡ fs.denied p
    → entry_at p fs'.entries ≡ entry_at p fs.entries
    → below fs' p r ≡ below fs p r
unfolding below
below-agrees fs fs' p (ok dir) d e = rw (d, e)
below-agrees fs fs' p (ok (file x)) d e = refl
below-agrees fs fs' p (err x) d e = refl
below-agrees fs fs' p (panic x) d e = refl
below-agrees fs fs' p stuck d e = refl

-- Two trees that agree on the entries at short paths agree on what is at them.
stat-agrees :
    (fs fs' : Fs) (n : ℕ)
    → fs'.denied ≡ fs.denied
    → ((q : FilePath) → length q < n → entry_at q fs'.entries ≡ entry_at q fs.entries)
    → (q : FilePath) → length q < n
    → stat fs' q ≡ stat fs q
unfolding stat
stat-agrees fs fs' n denied agree [] h = refl
stat-agrees fs fs' n denied agree (name ∷ parent) h =
    rw (stat-agrees fs fs' n denied agree parent (omega (arith, h))) (
      below-agrees fs fs' (name ∷ parent) (stat fs parent)
        (ap (λ (d : FilePath → Bool). d (name ∷ parent)) denied) (agree (name ∷ parent) h))

module _ (fs : Fs) (name : Bytes) (parent : FilePath) where
  stat-set_above : (e : Entry) → stat (set_entry fs (name ∷ parent) e) parent ≡ stat fs parent
  stat-set_above e =
      stat-agrees fs (set_entry fs (name ∷ parent) e) (suc (length parent)) refl
        (λ q h.
          unfold entry_at in
          rw (
            shorter_ne (name ∷ parent) q h,
            entry_at-without (name ∷ parent) q fs.entries,
            shorter_ne (name ∷ parent) q h,
          ))
        parent (omega arith)

  pub stat-set :
      (e : Entry)
      → stat fs parent ≡ ok dir
      → fs.denied (name ∷ parent) ≡ false
      → stat (set_entry fs (name ∷ parent) e) (name ∷ parent) ≡ ok e
  unfolding stat below
  stat-set e above allowed =
      rw (stat-set_above e, above, allowed)
        (unfold entry_at in rw ((path_eq_iff (name ∷ parent) (name ∷ parent)).1 refl))

  pub stat-without :
      stat fs parent ≡ ok dir
      → fs.denied (name ∷ parent) ≡ false
      → stat (record fs { entries = without (name ∷ parent) fs.entries }) (name ∷ parent)
        ≡ err not_found
  unfolding stat below
  stat-without above allowed = rw (
    stat-agrees fs (record fs { entries = without (name ∷ parent) fs.entries })
        (suc (length parent)) refl
        (λ q h. rw (entry_at-without (name ∷ parent) q fs.entries, shorter_ne (name ∷ parent) q h))
        parent (omega arith),
    above,
    allowed,
    entry_at-without (name ∷ parent) (name ∷ parent) fs.entries,
    (path_eq_iff (name ∷ parent) (name ∷ parent)).1 refl,
  )

  -- A path that the system lets one look at.
  there_allowed :
      (r : Result Entry)
      → stat fs parent ≡ ok dir
      → stat fs (name ∷ parent) ≡ r
      → (r ≢ err permission_denied)
      → fs.denied (name ∷ parent) ≡ false
  unfolding stat below
  there_allowed r above there fine = elim (Bool-cases (fs.denied (name ∷ parent))) [
    | inl refused ↦ absurd (fine (sym there ∙ rw (above, refused)))
    | inr allowed ↦ allowed
  ]

  write_over_ok :
      (content : Bytes) (above there : Result Entry)
      → stat fs parent ≡ above
      → stat fs (name ∷ parent) ≡ there
      → (write_over fs (name ∷ parent) content above there).1 ≡ ok tt
      → stat (write_over fs (name ∷ parent) content above there).0 (name ∷ parent)
        ≡ ok (file content)
  unfolding write_over
  write_over_ok content (ok dir) (ok (file d)) a t done =
      stat-set (file content) a (there_allowed (ok (file d)) a t (λ e. cc e))
  write_over_ok content (ok dir) (err not_found) a t done =
      stat-set (file content) a (there_allowed (err not_found) a t (λ e. cc e))
  write_over_ok content above there a t done = absurd (cc done)

  -- A file that was written is there, with what was written.
  pub stat-write_file :
      (content : Bytes)
      → (write_file fs (name ∷ parent) content).1 ≡ ok tt
      → stat (write_file fs (name ∷ parent) content).0 (name ∷ parent) ≡ ok (file content)
  unfolding write_file
  stat-write_file content done = write_over_ok content _ _ refl refl done

  -- What is found somewhere stands in a directory.
  above_there : (e : Entry) → stat fs (name ∷ parent) ≡ ok e → stat fs parent ≡ ok dir
  unfolding stat
  above_there e there = above_cases (stat fs parent) there
    where
      above_cases : (r : Result Entry) → below fs (name ∷ parent) r ≡ ok e → r ≡ ok dir
      above_cases (ok dir) h = refl
      above_cases r h = absurd (unfold below in cc h)

  removed_at_ok :
      (there : Result Entry)
      → stat fs (name ∷ parent) ≡ there
      → (removed_at fs (name ∷ parent) there).1 ≡ ok tt
      → stat (removed_at fs (name ∷ parent) there).0 (name ∷ parent) ≡ err not_found
  unfolding removed_at
  removed_at_ok (ok (file d)) t done =
      let above = above_there (file d) t in
      stat-without above (there_allowed (ok (file d)) above t (λ e. cc e))
  removed_at_ok (ok dir) t done =
      elim (Bool-cases (length (children (name ∷ parent) fs.entries) == 0)) [
        | inl empty ↦
            let above = above_there dir t in
            rw empty (stat-without above (there_allowed (ok dir) above t (λ e. cc e)))
        | inr some_child ↦ absurd (let done' = rw some_child at done in cc done')
      ]
  removed_at_ok there t done = absurd (cc done)

  -- What was removed is not there.
  pub stat-remove :
      (remove fs (name ∷ parent)).1 ≡ ok tt
      → stat (remove fs (name ∷ parent)).0 (name ∷ parent) ≡ err not_found
  unfolding remove
  stat-remove done = removed_at_ok _ refl done

  removed_at_err :
      (there : Result Entry) (e : Error)
      → (removed_at fs (name ∷ parent) there).1 ≡ err e
      → e ≡ not_found
      → (there ≡ err not_found) × ((removed_at fs (name ∷ parent) there).0 ≡ fs)
  unfolding removed_at
  removed_at_err (err x) e failed missing = (cc (failed, missing), refl)
  removed_at_err (ok dir) e failed missing =
      elim (Bool-cases (length (children (name ∷ parent) fs.entries) == 0)) [
        | inl empty ↦ absurd (let failed' = rw empty at failed in cc failed')
        | inr some_child ↦ absurd (let failed' = rw some_child at failed in cc (failed', missing))
      ]
  removed_at_err there e failed missing = absurd (cc failed)

  -- A removal that finds nothing changes nothing.
  pub stat-remove_missing :
      (e : Error)
      → (remove fs (name ∷ parent)).1 ≡ err e
      → is_not_exist e ≡ true
      → stat (remove fs (name ∷ parent)).0 (name ∷ parent) ≡ err not_found
  unfolding remove
  stat-remove_missing e failed missing =
      let (there, same) = removed_at_err _ e failed (is_not_exist_eq e missing) in
      ap (λ (f : Fs). stat f (name ∷ parent)) same ∙ there

pub read_file_ok :
    (fs : Fs) (p : FilePath) (d : Bytes) → stat fs p ≡ ok (file d) → read_file fs p ≡ ok d
unfolding read_file content_of
read_file_ok fs p d there = rw there
