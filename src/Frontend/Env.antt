-- ===== src/Frontend/Env.antt =====
-- The address of the flag service, from the page's origin: src/frontend/src/env/index.ts, where the
-- other services have theirs.
use easytrade.Base.{◌++◌}
use easytrade.Base.Text.{Text, codes}

abbrev pub get_feature_flag_service_url : Text → Text
get_feature_flag_service_url origin = origin ++ codes "/feature-flag-service/v1"
