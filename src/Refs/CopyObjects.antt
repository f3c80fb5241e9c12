-- ===== src/Refs/CopyObjects.antt =====
-- The loops that store the objects of an iterator, one after the other, until an error: Commit of
-- storage/transactional/object.go and of storage/memory/storage.go.
use ai_experimental_search.Base.{
  ℕ, ◌≡◌, refl, sym, ap, ◌∙◌, Option, none, List, [], ◌∷◌, ◌==◌, ==_iff, if◌then◌else◌, Bool-cases,
  inl, inr, ◌⊎◌,
}
use ai_experimental_search.Object.{any_object, EncodedObject, IsCollisionFree}
use ai_experimental_search.Refs.Storer.{
  StoreError, object_not_found, Result, ok, err, and_then, and_then-ok,
}
use ai_experimental_search.Refs.ObjectStorer.{
  ObjectStorer, IsObjectStorer, find_object, AllSupported,
}

-- What `fallback` gives where there is no such object.
abbrev pub or_else : {A : Type 0} → Result A → Result A → Result A
or_else (ok a) fallback = ok a
or_else (err object_not_found) fallback = fallback
or_else (err e) fallback = err e

unfoldable pub copy_all :
    {S : Type 0} → ObjectStorer S → List EncodedObject → S → S × Option StoreError
copy_all o [] s = (s, none)
copy_all o (x ∷ xs) s = and_then (λ s'. copy_all o xs s') (o.set_encoded_object x s)

module _ (object_hash : EncodedObject → ℕ) where
  pub find_object-cases :
      (h : ℕ) (xs : List EncodedObject)
      → (find_object object_hash h xs ≡ err object_not_found)
        ⊎ ((x : EncodedObject) × (find_object object_hash h xs ≡ ok x) × (object_hash x ≡ h))
  unfolding find_object
  find_object-cases h [] = inl refl
  find_object-cases h (x ∷ xs) = elim (Bool-cases (object_hash x == h)) [
    | inl e ↦ inr (x, rw e refl, (==_iff (object_hash x) h).0 e)
    | inr e ↦ rw e (find_object-cases h xs)
  ]

  module _ (free : IsCollisionFree object_hash) where
    -- The object that is stored later has the same hash, so it is the same one.
    pub or_else-found :
        (h : ℕ) (x : EncodedObject) (xs : List EncodedObject) (f : Result EncodedObject)
        → or_else (find_object object_hash h xs) (if object_hash x == h then ok x else f)
          ≡ or_else (if object_hash x == h then ok x else find_object object_hash h xs) f
    or_else-found h x xs f = elim (Bool-cases (object_hash x == h)) [
      | inl e ↦ rw e (elim (find_object-cases h xs) [
        | inl n ↦ rw n refl
        | inr (y, l, q) ↦
            rw l (
              ap (λ (z : EncodedObject). ok z)
                (free y x (q ∙ sym ((==_iff (object_hash x) h).0 e))))
      ])
      | inr e ↦ rw e refl
    ]

    module _ {S : Type 0} (o : ObjectStorer S) {Kept : S → Type 0}
        (ol : IsObjectStorer object_hash o Kept) where
      -- The loop has no error on objects of supported types, and then an object is found if it was one of
      -- these or was there before.
      pub copy_all_lem :
          (xs : List EncodedObject) (s : S)
          → AllSupported xs
          → Kept s
          → ((copy_all o xs s).1 ≡ none)
            × Kept (copy_all o xs s).0
            × ((h : ℕ)
                → o.encoded_object (copy_all o xs s).0 any_object h
                  ≡ or_else (find_object object_hash h xs) (o.encoded_object s any_object h))
      unfolding copy_all find_object
      copy_all_lem [] s a k = (refl, k, λ h. refl)
      copy_all_lem (x ∷ xs) s (a, as_) k =
          let step : copy_all o (x ∷ xs) s ≡ copy_all o xs (o.set_encoded_object x s).0 =
            and_then-ok (λ s'. copy_all o xs s') (o.set_encoded_object x s)
              (ol.set_no_error x s a) in
          let (quiet, kept, ih) =
            copy_all_lem xs (o.set_encoded_object x s).0 as_ (ol.set-Kept x s a k) in
          rw step (
            quiet,
            kept,
            λ h.
                ih h
                ∙ ap (or_else (find_object object_hash h xs)) (ol.object-set x s h)
                ∙ or_else-found h x xs (o.encoded_object s any_object h),
          )
