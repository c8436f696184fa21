-- ===== src/Messages/Prune/Keys.antt =====
-- Which bucket keys pruneBuckets takes for a server's own.
use cordia.Base.{Bool, Str, [], arith, contains, nat_eq, not, str_eq, true, ◌++◌, ◌↔◌, ◌∷◌, ◌≡◌}
use cordia.Messages.Buckets.{bucket_key}
use cordia.Messages.Prune.{is_of_server, starts_with}

-- No colon, as in the text of a signing key.
abbrev pub has_no_colon : Str → Bool
has_no_colon s = not (contains s 58)

starts_with-append_colons :
    (a b rest : Str)
    → has_no_colon a ≡ true
    → has_no_colon b ≡ true
    → (starts_with (a ++ 58 ∷ 58 ∷ []) (b ++ 58 ∷ 58 ∷ rest) ≡ true) ↔ (a ≡ b)
starts_with-append_colons [] [] rest ha hb = ground arith
starts_with-append_colons [] (d ∷ b) rest ha hb = ground arith
starts_with-append_colons (c ∷ a) [] rest ha hb = ground arith
starts_with-append_colons (c ∷ a) (d ∷ b) rest ha hb =
    ground (arith, starts_with-append_colons a b rest)

-- For keys without a colon, the bucket of a chat is taken for a server's own exactly when the chat
-- is on that server.
is_of_server-bucket_key_iff :
    (signing_pubkey other chat_id : Str)
    → has_no_colon signing_pubkey ≡ true
    → has_no_colon other ≡ true
    → (is_of_server signing_pubkey (bucket_key other chat_id) ≡ true) ↔ (signing_pubkey ≡ other)
unfolding is_of_server bucket_key
is_of_server-bucket_key_iff a b chat ha hb = starts_with-append_colons a b chat ha hb
