-- ===== src/Tests/Hashing.antt =====
-- A hash that counts the bytes.
use lazy_db.Prelude.{◌%◌, ◌^◌, ◌≡◌, refl, sym, ◌∙◌, none, [], ◌++◌, Bytes, length, arith}
use lazy_db.Prelude.Res.{ok}
use lazy_db.Util.{Hash128, IsHash, digest, encode_sum128}
use lazy_db.Util.Digests.{digest_lem, equal_digests, words_of}
use lazy_db.Tests.{key0, value0}

abbrev counting : Hash128
counting = record {
  H = Bytes;
  new128 = [];
  write = λ x p. ((length p, none), x ++ p);
  sum128 = λ x. (length x % 2 ^ 64, 0);
  reset = λ x. [];
}

counting-IsHash : IsHash counting
counting-IsHash = record {
  takes_all = λ x p. refl;
  reset_new = λ x. refl;
  words = λ x. (omega arith, omega arith);
}

digest_lem_example : digest counting key0 [] ≡ (ok (encode_sum128 (1, 0)), [])
digest_lem_example = digest_lem counting counting-IsHash key0

same_sums : digest counting key0 [] ≡ digest counting value0 []
same_sums =
    digest_lem counting counting-IsHash key0 ∙ sym (digest_lem counting counting-IsHash value0)

equal_digests_example :
    words_of counting counting-IsHash key0 ≡ words_of counting counting-IsHash value0
equal_digests_example = equal_digests counting counting-IsHash key0 value0 same_sums
