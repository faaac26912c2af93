-- ===== src/Console/Contract/Apps.antt =====
-- Reading back the whole status of an App.
use toggle_web_baker.Common.{List}
use toggle_web_baker.Console.Value.{Value}
use toggle_web_baker.Console.Model as Model
