-- ===== src/Server/Sanitize/Tests.antt =====
-- internal/server/handlers.go: runs of sanitizeError.
use resillm.Common.{strip_prefix, ◌≡◌, ◌↔◌, refl, some}
use resillm.Server.Sanitize.{sanitize, openai_key_at, anthropic_key_at}
use resillm.Server.Sanitize.Clean.{IsClean, sanitize-IsClean}

-- A project key has a dash in its first characters, and stays.
project_key :
    sanitize (some "key sk-proj-aaaaaaaaaaaaaaaaaaaaaaaaa")
    ≡ "key sk-proj-aaaaaaaaaaaaaaaaaaaaaaaaa"
unfolding sanitize strip_prefix
project_key = refl

plain_keys :
    sanitize (some "key sk-aaaaaaaaaaaaaaaaaaaaaaaaa, sk-ant-api03-x!")
    ≡ "key [REDACTED], [REDACTED]!"
unfolding sanitize strip_prefix
plain_keys = refl

sanitize-IsClean_example :
    IsClean openai_key_at (sanitize (some "bad sk-ant-x"))
    × IsClean anthropic_key_at (sanitize (some "bad sk-ant-x"))
    × ((sanitize (some "bad sk-ant-x") ≡ "bad sk-ant-x")
        ↔ (IsClean openai_key_at "bad sk-ant-x" × IsClean anthropic_key_at "bad sk-ant-x"))
sanitize-IsClean_example = sanitize-IsClean "bad sk-ant-x"
