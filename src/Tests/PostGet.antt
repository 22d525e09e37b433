-- ===== src/Tests/PostGet.antt =====
-- A POST and a GET against the small world.
use go_clean_arch_template.Usecase
use go_clean_arch_template.Gorm
use go_clean_arch_template.Http.{AccountResponse}
use go_clean_arch_template.Tests.Requests.{Context, fresh_request}

abbrev joe_response : AccountResponse
joe_response = record {
  id = "b2";
  email = "joe@example.com";
  first_name = "Joe";
  last_name = "Doe";
  full_name = "Joe Doe";
  status = "active";
  created_at = "9";
  updated_at = "9";
}

abbrev asking : Context
asking = record fresh_request { id = "b2" }
