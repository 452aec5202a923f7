-- ===== src/Http.antt =====
-- The HTTP messages of include/http.h and src/http.cpp.
pub mod Status
pub mod Response
pub mod Request

-- `enum HttpMethod` and `enum HttpVersion`.
pub data HttpMethod : Type 0 where
  method_nothing get post head put patch delete : HttpMethod

pub data HttpVersion : Type 0 where
  version_nothing v9 v10 v11 : HttpVersion
