-- ===== src/Verify.antt =====
-- internal/verify/verify.go: the key that the labels of a labeler are signed with, from its DID document, and
-- the check of a label against it. The document, the parser of keys and the check are indigo's.
use labeler_relay.Prelude.{
  ◌≡◌, String, true, false, List, [], ◌∷◌, ◌++◌, All, arith, if◌then◌else◌, Result, ok, err, Fault,
  ◌>>=◌, with_context,
}
use Prim.Native.String
use labeler_relay.Firehose.Resolve.{has_suffix}

pub record VerificationMethod : Type 0 where
  pub id : String
  pub public_key_multibase : String

module _ {Key : Type 0} (parse : String → Result Key) (did : String) where
  -- The loop over the verification methods.
  unfoldable pub label_key : List VerificationMethod → Result Key
  unfolding has_suffix
  label_key [] = err (String.◌++◌ "no #atproto_label verification method in DID document for " did)
  label_key (vm ∷ vms) =
      let rest = label_key vms in
      if has_suffix vm.id "#atproto_label"
      then with_context (String.◌++◌ "failed to parse #atproto_label key for " did)
          (parse vm.public_key_multibase)
      else rest

  unfoldable pub resolve_label_key : Result (List VerificationMethod) → Result Key
  unfolding label_key
  resolve_label_key resolved = do
    vms ← with_context (String.◌++◌ "failed to resolve DID " did) resolved
    label_key vms

  -- The part of a document before its first method for labels.
  abbrev NoneFits : List VerificationMethod → Type 0
  NoneFits = All (λ vm. has_suffix vm.id "#atproto_label" ≡ false)

  -- The key is that of the first method for labels, wherever it stands in the document; a method for labels
  -- that comes later does not count, even when the first one's key cannot be parsed.
  pub resolve_label_key-first :
      (before after : List VerificationMethod) (vm : VerificationMethod)
      → NoneFits before
      → has_suffix vm.id "#atproto_label" ≡ true
      → resolve_label_key (ok (before ++ vm ∷ after))
        ≡ with_context
            (String.◌++◌ "failed to parse #atproto_label key for " did)
            (parse vm.public_key_multibase)
  unfolding resolve_label_key label_key
  resolve_label_key-first [] after vm h q = ground (arith, q)
  resolve_label_key-first (x ∷ xs) after vm h q =
      ground (arith, h.0, resolve_label_key-first xs after vm h.1 q)

-- VerifyRelayedLabel: the label of the lexicon as the library's own, and its check with the key.
unfoldable pub verify_relayed_label :
    {Lexicon Signed Key : Type 0}
    → (Lexicon → Signed)
    → (Signed → Key → Fault)
    → Lexicon
    → Key
    → Fault
verify_relayed_label from_lexicon verify_signature label origin_key =
    verify_signature (from_lexicon label) origin_key
