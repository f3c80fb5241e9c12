-- ===== src/Tests/Stores.antt =====
-- The theorems about the storages at concrete inputs.
use ai_experimental_search.Base.{
  ℕ, zero, suc, ◌+◌, ◌*◌, ◌≡◌, refl, ap, Option, none, some, List, [], ◌∷◌, Bytes, bytes_eq, arith,
}
use ai_experimental_search.Object.{
  ObjectType, code, commit_object, blob_object, ofs_delta_object, any_object, EncodedObject,
  IsCollisionFree, type_name, parse_object_type, is_valid, parse_object_type-type_name,
}
use ai_experimental_search.Refs.Reference.{Reference, new_hash_reference}
use ai_experimental_search.Refs.Storer.{
  StoreError, reference_not_found, unsupported_object_type, ok, err, find_reference, has_name,
  Named,
}
use ai_experimental_search.Refs.ObjectStorer.{narrow, find_object}
use ai_experimental_search.Refs.CopyObjects.{or_else}
use ai_experimental_search.Storage.Storer.{Storer, Parts, IsStorer}
use ai_experimental_search.Storage.Memory.References.{
  memory_references, memory_references-IsReferenceStorer,
}
use ai_experimental_search.Storage.Memory
use ai_experimental_search.Storage.Memory.Objects.{
  ObjectStorage, new_object_storage, set_encoded_object, encoded_object,
}
use ai_experimental_search.Storage.Memory.Objects.Laws.{
  IsIndexed, new-IsIndexed, set_encoded_object-IsIndexed, encoded_object-set,
}
use ai_experimental_search.Storage.Memory.Objects.Transaction.{
  begin, store_all, tx_commit, tx_commit-store_all,
}
use ai_experimental_search.Storage.Memory.Cells.{
  memory_shallow, memory_shallow-IsShallowStorer, shallow,
}
use ai_experimental_search.Storage.Memory.Whole.{memory_storer, memory_storer-IsStorer}
use ai_experimental_search.Storage.Transactional.References.{
  TxReferences, new_reference_storage, undelete, set_reference, remove_reference, reference,
  iter_references, commit, set_all, remove_all,
}
use ai_experimental_search.Storage.Transactional.References.Commit.{IsValid, new-IsValid}
use ai_experimental_search.Storage.Transactional.References.Replay.{
  Op, setting, removing, checking, Write, put, drop, as_ops, run, run_directly, apply, run-IsValid,
  reference-replay,
}
use ai_experimental_search.Storage.Transactional.References.Checks.{iter_references-set-remove}
use ai_experimental_search.Storage.Transactional.Cells.{TxShallow, or_shallow, commit-set_shallow}
use ai_experimental_search.Storage.Transactional.Cells
use ai_experimental_search.Storage.Transactional
use ai_experimental_search.Storage.Transactional.Whole.{
  Basic, new_storage, IsReady, Agrees, new-IsReady, commit-Agrees,
}

-- A hash with no collisions: the type and the bytes as one number.
abbrev pair : ℕ → ℕ → ℕ
pair zero m = 2 * m + 1
pair (suc x) m = 2 * pair x m

abbrev number : Bytes → ℕ
number [] = 0
number (x ∷ xs) = pair x (number xs)

pair-inj : (x y m n : ℕ) → pair x m ≡ pair y n → (x ≡ y) × (m ≡ n)
pair-inj zero zero m n e = (refl, omega (arith, e))
pair-inj zero (suc y) m n e = absurd (omega (arith, e))
pair-inj (suc x) zero m n e = absurd (omega (arith, e))
pair-inj (suc x) (suc y) m n e = let (p, q) = pair-inj x y m n (omega (arith, e)) in (ap suc p, q)

pair-positive : (x m : ℕ) → ¬ pair x m ≡ 0
pair-positive zero m e = omega (arith, e)
pair-positive (suc x) m e = pair-positive x m (omega (arith, e))

number-inj : (xs ys : Bytes) → number xs ≡ number ys → xs ≡ ys
number-inj [] [] e = refl
number-inj [] (y ∷ ys) e = absurd (pair-positive y (number ys) (omega (arith, e)))
number-inj (x ∷ xs) [] e = absurd (pair-positive x (number xs) e)
number-inj (x ∷ xs) (y ∷ ys) e =
    let (p, q) = pair-inj x y (number xs) (number ys) e in
    let rest : xs ≡ ys = number-inj xs ys q in cc

abbrev plain_hash : EncodedObject → ℕ
plain_hash x = pair (code x.typ) (number x.content)

code-inj : (t u : ObjectType) → code t ≡ code u → t ≡ u
code-inj t u e = ground arith

plain_hash-IsCollisionFree : IsCollisionFree plain_hash
plain_hash-IsCollisionFree x y e =
    let (p, q) = pair-inj (code x.typ) (code y.typ) (number x.content) (number y.content) e in
    let t : x.typ ≡ y.typ = code-inj x.typ y.typ p in
    let c : x.content ≡ y.content = number-inj x.content y.content q in
    λ i. record { typ = t i; content = c i }

parse_object_type-type_name_run : parse_object_type (type_name any_object) ≡ none
parse_object_type-type_name_run = unfold is_valid in parse_object_type-type_name any_object

abbrev blob : EncodedObject
blob = record { typ = blob_object; content = 1 ∷ 2 ∷ [] }

abbrev root : EncodedObject
root = record { typ = commit_object; content = 3 ∷ [] }

abbrev delta : EncodedObject
delta = record { typ = ofs_delta_object; content = 1 ∷ [] }

-- The object is stored though its type is refused.
encoded_object-set_run :
    ((set_encoded_object plain_hash delta new_object_storage).1 ≡ some unsupported_object_type)
    × (encoded_object
          (set_encoded_object plain_hash delta new_object_storage).0
          any_object
          (plain_hash delta)
        ≡ ok delta)
encoded_object-set_run =
    encoded_object-set plain_hash delta new_object_storage any_object (plain_hash delta)

set_encoded_object-IsIndexed_example :
    IsIndexed plain_hash (set_encoded_object plain_hash blob new_object_storage).0
set_encoded_object-IsIndexed_example =
    set_encoded_object-IsIndexed plain_hash plain_hash-IsCollisionFree blob new_object_storage refl
      (new-IsIndexed plain_hash)

tx_commit-store_all_example :
    let done =
      tx_commit plain_hash (store_all plain_hash (blob ∷ root ∷ []) (begin new_object_storage)) in
    (done.1 ≡ none)
    × (done.0.objects ≡ [])
    × IsIndexed plain_hash done.0.storage
    × ((t : ObjectType) (h : ℕ)
        → encoded_object done.0.storage t h
          ≡ narrow t (
              or_else
                (find_object plain_hash h (blob ∷ root ∷ []))
                (encoded_object new_object_storage any_object h)))
tx_commit-store_all_example =
    tx_commit-store_all plain_hash plain_hash-IsCollisionFree (blob ∷ root ∷ []) new_object_storage
      (refl, (refl, tt)) (new-IsIndexed plain_hash)

abbrev main_name : Bytes
main_name = b'm' ∷ []

abbrev dev_name : Bytes
dev_name = b'd' ∷ []

abbrev two_references : List Reference
two_references = new_hash_reference main_name 7 ∷ new_hash_reference dev_name 8 ∷ []

two_references-Named : Named two_references
unfolding has_name bytes_eq
two_references-Named = (refl, (refl, tt))

abbrev writes : List Write
writes =
    drop main_name
    ∷ put (new_hash_reference dev_name 9)
    ∷ put (new_hash_reference main_name 5)
    ∷ drop dev_name
    ∷ []

reference-replay_example :
    let done = commit memory_references memory_references (
      run memory_references memory_references
        (as_ops writes)
        (new_reference_storage two_references [])) in
    (done.1 ≡ none)
    × ((n : Bytes)
        → Memory.References.reference done.0 n
          ≡ Memory.References.reference (run_directly memory_references writes two_references) n)
reference-replay_example =
    reference-replay memory_references memory_references memory_references-IsReferenceStorer
      memory_references-IsReferenceStorer writes two_references [] two_references-Named tt
      (λ n. unfold Memory.References.reference find_reference bytes_eq in refl)

-- What it does: the new main branch only.
replayed :
    (commit memory_references memory_references (
      run memory_references memory_references
        (as_ops writes)
        (new_reference_storage two_references []))).0
    ≡ new_hash_reference main_name 5 ∷ []
unfolding commit run apply new_reference_storage set_reference remove_reference undelete set_all
    remove_all Memory.References.set_reference Memory.References.remove_reference bytes_eq
replayed = refl

abbrev empty_transaction : TxReferences (List Reference) (List Reference)
empty_transaction = new_reference_storage two_references []

empty_transaction-IsValid :
    IsValid memory_references memory_references memory_references-IsReferenceStorer
      memory_references-IsReferenceStorer empty_transaction
empty_transaction-IsValid =
    new-IsValid memory_references memory_references memory_references-IsReferenceStorer
      memory_references-IsReferenceStorer two_references [] two_references-Named tt

abbrev some_ops : List Op
some_ops =
    removing main_name
    ∷ checking (new_hash_reference dev_name 9) (some (new_hash_reference dev_name 8))
    ∷ setting (new_hash_reference main_name 5)
    ∷ []

run-IsValid_example :
    IsValid memory_references memory_references memory_references-IsReferenceStorer
      memory_references-IsReferenceStorer
      (run memory_references memory_references some_ops empty_transaction)
run-IsValid_example =
    run-IsValid memory_references memory_references memory_references-IsReferenceStorer
      memory_references-IsReferenceStorer some_ops empty_transaction empty_transaction-IsValid

abbrev empty_over_two : TxReferences (List Reference) (List Reference)
empty_over_two = record { base = two_references; temporal = []; deleted = [] }

iter_references-set-remove_example :
    (reference memory_references memory_references
        (set_reference memory_references memory_references
          (new_hash_reference main_name 9)
          empty_over_two).0
        main_name
      ≡ ok (new_hash_reference main_name 9))
    × (find_reference main_name (
          iter_references memory_references memory_references
            (set_reference memory_references memory_references
              (new_hash_reference main_name 9)
              empty_over_two).0)
        ≡ ok (new_hash_reference main_name 7))
    × (reference memory_references memory_references
          (remove_reference memory_references memory_references main_name empty_over_two).0
          main_name
        ≡ err reference_not_found)
    × (find_reference main_name (
          iter_references memory_references memory_references
            (remove_reference memory_references memory_references main_name empty_over_two).0)
        ≡ ok (new_hash_reference main_name 7))
iter_references-set-remove_example =
    iter_references-set-remove memory_references memory_references
      memory_references-IsReferenceStorer memory_references-IsReferenceStorer empty_over_two
      (new_hash_reference main_name 9) (new_hash_reference main_name 7) two_references-Named
      (unfold Memory.References.reference find_reference bytes_eq in refl)

abbrev shallow_base : TxShallow (List ℕ) (List ℕ)
shallow_base = record { base = 4 ∷ []; temporal = [] }

-- No shallow commits are set, and the one of the base storage stays.
commit-set_shallow_run :
    let new = (Cells.set_shallow memory_shallow memory_shallow [] shallow_base).0 in
    (Cells.shallow memory_shallow memory_shallow new ≡ 4 ∷ [])
    × (shallow (Cells.commit_shallow memory_shallow memory_shallow new).0 ≡ 4 ∷ [])
unfolding shallow
commit-set_shallow_run =
    commit-set_shallow memory_shallow memory_shallow memory_shallow-IsShallowStorer
      memory_shallow-IsShallowStorer [] shallow_base

abbrev accept : ℕ → Option StoreError
accept v = none

abbrev stores : Storer ObjectStorage (List Reference) (Option ℕ) (List ℕ) (Option ℕ) ℕ ℕ
stores = memory_storer plain_hash 2 0 accept

abbrev StoresLaws : Type 0
StoresLaws = IsStorer plain_hash (λ i. none) accept stores (IsIndexed plain_hash) Named

memory_storer-IsStorer_example : StoresLaws
memory_storer-IsStorer_example =
    memory_storer-IsStorer plain_hash 2 0 accept plain_hash-IsCollisionFree

abbrev base_parts : Parts ObjectStorage (List Reference) (Option ℕ) (List ℕ) (Option ℕ)
base_parts = record {
  objects = (set_encoded_object plain_hash blob new_object_storage).0;
  references = two_references;
  index = none;
  shallow = 4 ∷ [];
  config = some 1;
}

abbrev temporal_parts : Parts ObjectStorage (List Reference) (Option ℕ) (List ℕ) (Option ℕ)
temporal_parts = record {
  objects = (set_encoded_object plain_hash root new_object_storage).0;
  references = new_hash_reference main_name 6 ∷ [];
  index = some 3;
  shallow = 5 ∷ [];
  config = none;
}

stores-laws : StoresLaws
stores-laws = memory_storer-IsStorer plain_hash 2 0 accept plain_hash-IsCollisionFree

-- A commit that has an object, a reference and shallow commits to copy.
commit-Agrees_example :
    let tx = new_storage base_parts temporal_parts in
    ((Transactional.Whole.commit stores stores tx).1 ≡ none)
    × Agrees plain_hash plain_hash-IsCollisionFree
        (λ i. none)
        accept
        stores
        stores
        stores-laws
        stores-laws
        tx
        (Transactional.Whole.commit stores stores tx).0
commit-Agrees_example =
    commit-Agrees plain_hash plain_hash-IsCollisionFree (λ i. none) accept stores stores stores-laws
      stores-laws (new_storage base_parts temporal_parts)
      (new-IsReady plain_hash plain_hash-IsCollisionFree (λ i. none) accept stores stores
        stores-laws stores-laws base_parts temporal_parts
        (set_encoded_object-IsIndexed plain_hash plain_hash-IsCollisionFree blob new_object_storage
          refl (new-IsIndexed plain_hash))
        (set_encoded_object-IsIndexed plain_hash plain_hash-IsCollisionFree root new_object_storage
          refl (new-IsIndexed plain_hash))
        two_references-Named (unfold has_name in (refl, tt)))
