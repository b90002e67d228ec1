-- ===== src/Pkcs11/Module/Find/Batches.antt =====
-- A whole search, in as many calls as the application likes.
use libre_agent.Common.{
  ℕ, zero, suc, sym, ◌+◌, ◌≡◌, refl, ◌∙◌, ap, true, false, some, List, [], ◌∷◌, ◌++◌, nat_key,
  arith, take, drop,
}
use libre_agent.Common.Map
use libre_agent.Pkcs11.Attribute.{Rv, Attribute}
use libre_agent.Pkcs11.Objects.{Object}
use libre_agent.Pkcs11.Session.{Session, SessionState, FindCursor}
use libre_agent.Pkcs11.Module.Find.{found, find_init, find_next, set_find}
use libre_agent.Pkcs11.Module.Serve.{Sources}
use libre_agent.Pkcs11.Module.Sessions.{lookup-update_session}

-- What C_FindObjects gives in calls with these many places, in order.
unfoldable pub batches : ℕ → List ℕ → SessionState → List ℕ
unfolding find_next
batches h [] s = []
batches h (max ∷ maxes) s = let r = find_next h max s in r.0.1 ++ batches h maxes r.1

unfoldable pub total : List ℕ → ℕ
total [] = 0
total (max ∷ maxes) = max + total maxes

take_nil : (n : ℕ) → take {A = ℕ} n [] ≡ []
take_nil zero = refl
take_nil (suc n) = refl

one_further : (m n : ℕ) → suc m + n ≡ suc (m + n)
one_further m n = omega arith

take_add : (m n : ℕ) (xs : List ℕ) → take m xs ++ take n (drop m xs) ≡ take (m + n) xs
take_add zero n xs = ap (λ k. take k xs) (no_more n)
  where
    no_more : (n : ℕ) → n ≡ 0 + n
    no_more n = omega arith
take_add (suc m) n [] = take_nil n ∙ sym (take_nil (suc m + n))
take_add (suc m) n (x ∷ xs) =
    ap (λ ys. x ∷ ys) (take_add m n xs) ∙ ap (λ k. take k (x ∷ xs)) (sym (one_further m n))

next_batch :
    (h max : ℕ) (s : SessionState) (x : Session)
    → Map.lookup h s.sessions ≡ some x
    → x.find.active ≡ true
    → find_next h max s ≡ (
      (Rv.ok, take max x.find.left),
      set_find (record x.find { left = drop max x.find.left }) h s,
    )
unfolding find_next
next_batch h max s x e active = ground (arith, e, active)

batches_from :
    (h : ℕ) (maxes : List ℕ) (s : SessionState) (x : Session)
    → Map.lookup h s.sessions ≡ some x
    → x.find.active ≡ true
    → batches h maxes s ≡ take (total maxes) x.find.left
unfolding batches set_find total
batches_from h [] s x e active = refl
batches_from h (max ∷ maxes) s x e active =
    let left = record x.find { left = drop max x.find.left } in
    ap (λ (r : (Rv × List ℕ) × SessionState). r.0.1 ++ batches h maxes r.1)
      (next_batch h max s x e active)
    ∙ ap (λ ys. take max x.find.left ++ ys)
        (batches_from h maxes (set_find left h s) (record x { find = left })
          (lookup-update_session (λ y. record y { find = left }) h s x e) active)
    ∙ take_add max (total maxes) x.find.left

first_call :
    (sources : Object → Sources) (h : ℕ) (tmpl : List Attribute) (s : SessionState) (x : Session)
    → Map.lookup h s.sessions ≡ some x
    → x.find.active ≡ false
    → find_init sources h tmpl s
      ≡ (Rv.ok, set_find (record { active = true; left = found sources h x.slot tmpl s }) h s)
unfolding find_init
first_call sources h tmpl s x e idle = ground (arith, e, idle)

-- After C_FindObjectsInit in a session that searches nothing, the calls of C_FindObjects, whatever the number of places
-- of each, give the handles that were found when the search began, in order, up to the
-- number of places in all.
pub batches-find_init :
    (sources : Object → Sources) (h : ℕ) (tmpl : List Attribute) (maxes : List ℕ) (s : SessionState)
    (x : Session)
    → Map.lookup h s.sessions ≡ some x
    → x.find.active ≡ false
    → batches h maxes (find_init sources h tmpl s).1
      ≡ take (total maxes) (found sources h x.slot tmpl s)
unfolding set_find
batches-find_init sources h tmpl maxes s x e idle =
    let begun : FindCursor = record { active = true; left = found sources h x.slot tmpl s } in
    ap (λ (r : Rv × SessionState). batches h maxes r.1) (first_call sources h tmpl s x e idle)
    ∙ batches_from h maxes (set_find begun h s) (record x { find = begun })
        (lookup-update_session (λ y. record y { find = begun }) h s x e) refl
