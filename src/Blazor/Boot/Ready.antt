-- ===== src/Blazor/Boot/Ready.antt =====
-- When the worker tells the page that it is loaded.
use dark.Common.{
  ℕ, suc, ◌+◌, ◌-◌, ◌<◌, ◌≤◌, ◌≡◌, refl, sym, ◌∙◌, true, false, List, [], ◌∷◌, ◌++◌, append_assoc,
  append-nil, Chars, arith, ◌==◌, if◌then◌else◌, length, All, any, same_text, same_text_iff,
}
use dark.Blazor.Boot.{
  Boot, when_ready, add_assembly, add_all, fresh, pre_run, File, on_file, run, good, logged,
}

same_text_refl : (s : Chars) → same_text s s ≡ true
same_text_refl s = (same_text_iff s s).1 refl

-- Every key is its own property.
AllKeys : List Chars → List Chars → Type 0
AllKeys keys = All (λ url. any (λ k. same_text k url) keys ≡ true)

AllKeys-cons : (k : Chars) (keys urls : List Chars) → AllKeys keys urls → AllKeys (k ∷ keys) urls
unfolding AllKeys
AllKeys-cons k keys [] h = tt
AllKeys-cons k keys (u ∷ urls) (h, hs) = (ground arith, AllKeys-cons k keys urls hs)

AllKeys-refl : (keys : List Chars) → AllKeys keys keys
unfolding AllKeys
AllKeys-refl [] = tt
AllKeys-refl (k ∷ keys) = (rw (same_text_refl k), AllKeys-cons k keys keys (AllKeys-refl keys))

add_all_lem :
    (keys urls : List Chars) (b : Boot)
    → AllKeys keys urls
    → add_all keys urls b ≡ record b { dependencies = b.dependencies + length urls }
unfolding add_all add_assembly AllKeys
add_all_lem keys [] b h = ground arith
add_all_lem keys (u ∷ urls) b (h, hs) =
    rw h (add_all_lem keys urls (record b { dependencies = b.dependencies + 1 }) hs ∙ ground arith)

pre_run_lem :
    (us : List Chars)
    → pre_run us
      ≡ record fresh { dependencies = length us; ready_posted = (if length us == 0 then 1 else 0) }
unfolding pre_run when_ready
pre_run_lem us = rw (add_all_lem us us fresh (AllKeys-refl us)) (ground arith)

on_file_lem :
    (f : File) (b : Boot) (n : ℕ)
    → b.dependencies ≡ suc n
    → b.non_existing ≡ []
    → let b' = on_file f b in
      (b'.dependencies ≡ n)
      × (b'.ready_posted ≡ b.ready_posted + (if n == 0 then 1 else 0))
      × (b'.non_existing ≡ [])
      × (b'.warned ≡ b.warned)
unfolding on_file
on_file_lem f b n d e = ground arith

on_file-lists :
    (f : File) (b : Boot)
    → ((on_file f b).loaded_files ≡ b.loaded_files ++ good (f ∷ []))
      × ((on_file f b).errors ≡ b.errors ++ logged (f ∷ []))
unfolding on_file
on_file-lists f b = ground (arith, append-nil b.loaded_files, append-nil b.errors)

good-cons : (f : File) (fs : List File) → good (f ∷ fs) ≡ good (f ∷ []) ++ good fs
good-cons f fs = ground arith

logged-cons : (f : File) (fs : List File) → logged (f ∷ fs) ≡ logged (f ∷ []) ++ logged fs
logged-cons f fs = ground arith

run-lists :
    (fs : List File) (b : Boot)
    → ((run fs b).loaded_files ≡ b.loaded_files ++ good fs)
      × ((run fs b).errors ≡ b.errors ++ logged fs)
unfolding run
run-lists [] b = (sym (append-nil _), sym (append-nil _))
run-lists (f ∷ fs) b =
    let (l, e) = on_file-lists f b in
    let (ls, es) = run-lists fs (on_file f b) in
    (
      ls ∙ rw (l, good-cons f fs) (append_assoc b.loaded_files (good (f ∷ [])) (good fs)),
      es ∙ rw (e, logged-cons f fs) (append_assoc b.errors (logged (f ∷ [])) (logged fs)),
    )

-- One message once the last file is settled, and none before.
run-ready :
    (fs : List File) (b : Boot) (k : ℕ)
    → 0 < length fs
    → b.dependencies ≡ length fs + k
    → b.non_existing ≡ []
    → let b' = run fs b in
      (b'.ready_posted ≡ b.ready_posted + (if k == 0 then 1 else 0))
      × (b'.dependencies ≡ k)
      × (b'.non_existing ≡ [])
      × (b'.warned ≡ b.warned)
unfolding run
run-ready [] b k pos d e = absurd (omega arith)
run-ready (f ∷ []) b k pos d e =
    let (dd, rp, ne, w) = on_file_lem f b k (omega arith) e in (rp, dd, ne, w)
run-ready (f ∷ g ∷ fs) b k pos d e =
    let (dd, rp, ne, w) = on_file_lem f b (suc (length fs) + k) (omega arith) e in
    let (rp2, dd2, ne2, w2) = run-ready (g ∷ fs) (on_file f b) k (omega arith) dd ne in
    (ground arith, dd2, ne2, w2 ∙ w)

counted :
    (us : List Chars) (fs : List File)
    → length fs ≤ length us
    → let b = run fs (pre_run us) in
      (b.ready_posted ≡ (if length fs == length us then 1 else 0))
      × (b.non_existing ≡ [])
      × (b.warned ≡ false)
counted us [] h = unfold run in rw (pre_run_lem us) (ground arith, refl, refl)
counted us (f ∷ fs) h =
    let start = pre_run_lem us in
    let (p, d, n, w) =
      run-ready (f ∷ fs) (pre_run us) (length us - length (f ∷ fs)) (omega arith)
        (rw start (omega arith)) (rw start) in
    (p ∙ rw start (ground arith), n, w ∙ rw start)

-- The worker says that it is loaded exactly when each file of the manifest has been settled, whether
-- it could be loaded or not, and says it once. The files that came with a good status are loaded, the
-- other failures are logged unless they are debug symbols that the server does not have, and the
-- warning about files outside the manifest is never given.
pub boot_lem :
    (us : List Chars) (fs : List File)
    → length fs ≤ length us
    → let b = run fs (pre_run us) in
      (b.ready_posted ≡ (if length fs == length us then 1 else 0))
      × (b.loaded_files ≡ good fs)
      × (b.errors ≡ logged fs)
      × (b.non_existing ≡ [])
      × (b.warned ≡ false)
boot_lem us fs h =
    let (l, e) = run-lists fs (pre_run us) in
    let (p, n, w) = counted us fs h in (p, l ∙ rw (pre_run_lem us), e ∙ rw (pre_run_lem us), n, w)
